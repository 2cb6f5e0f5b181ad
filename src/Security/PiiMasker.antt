-- ===== src/Security/PiiMasker.antt =====
-- security/pii_masker.py: `PIIMasker`. The substitution of `re` is a parameter.
pub mod Secrets
mod Tests
use Prim.Native.Char.{Char, code}
use Prim.Native.String.{[], ◌∷◌, ◌++◌ as str_append}
use converse_os.Prelude.{
  ℕ, zero, suc, ◌-◌, String, List, [], ◌∷◌, Bool, true, false, ◌&&◌, leb, ltb, if◌then◌else◌,
}
use converse_os.Prelude.Case.{is_one_of}
use converse_os.Prelude.Split.{split, str_length}
use converse_os.Domain.Value.{Value, str, list, dict, Values, nil, cons, Fields, end, field}

-- the entries of `PATTERNS`, by their names
pub data Pattern : Type 0 where
  email phone credit_card ssn ipv4 : Pattern

abbrev pub patterns : List Pattern
patterns = email ∷ phone ∷ credit_card ∷ ssn ∷ ipv4 ∷ []

-- `local[0]`; the pattern of an email has a character before the "@"
abbrev pub first_char : String → String
first_char [] = ""
first_char (c ∷ s) = c ∷ ""

-- `parts[-1]` of parts that are not empty
unfoldable pub last_part : List String → String
last_part [] = ""
last_part (p ∷ []) = p
last_part (p ∷ q ∷ ps) = last_part (q ∷ ps)

-- `re.sub(r"[^\\d]", "", s)`, on a match, whose digits are those of ASCII
unfoldable pub digits_of : String → String
digits_of [] = ""
digits_of (c ∷ s) =
    let rest = digits_of s in if leb b'0' (code c) && leb (code c) b'9' then c ∷ rest else rest

abbrev drop_chars : ℕ → String → String
drop_chars zero s = s
drop_chars (suc n) [] = ""
drop_chars (suc n) (c ∷ s) = drop_chars n s

-- `digits[-4:]` of four digits at least
unfoldable pub last_four : String → String
last_four s = drop_chars (str_length s - 4) s

abbrev email_parts : List String → String
email_parts (local ∷ domain ∷ []) =
    str_append (first_char local) (str_append "***@***." (last_part (split "." domain)))
email_parts _ = "***@***.***"

unfoldable pub mask_email : String → String
unfolding split last_part
mask_email s = email_parts (split "@" s)

unfoldable pub mask_phone : String → String
unfolding digits_of last_four
mask_phone s =
    let digits = digits_of s in
    if leb 4 (str_length digits) then str_append "***-***-" (last_four digits) else "***"

unfoldable pub mask_credit_card : String → String
unfolding digits_of last_four
mask_credit_card s =
    let digits = digits_of s in
    if leb 4 (str_length digits)
    then str_append "****-****-****-" (last_four digits)
    else "****-****-****-****"

abbrev ssn_parts : List String → String
ssn_parts (a ∷ b ∷ c ∷ []) = str_append "***-**-" c
ssn_parts _ = "***-**-****"

unfoldable pub mask_ssn : String → String
unfolding split
mask_ssn s = ssn_parts (split "-" s)

abbrev ip_parts : List String → String
ip_parts (a ∷ b ∷ c ∷ d ∷ []) = str_append a ".***.***.***.***"
ip_parts _ = "***.***.***.***"

unfoldable pub mask_ip : String → String
unfolding split
mask_ip s = ip_parts (split "." s)

-- the third component of an entry of `PATTERNS`
unfoldable pub mask_fn : Pattern → String → String
unfolding mask_email mask_phone mask_credit_card mask_ssn mask_ip
mask_fn email = mask_email
mask_fn phone = mask_phone
mask_fn credit_card = mask_credit_card
mask_fn ssn = mask_ssn
mask_fn ipv4 = mask_ip

-- `SENSITIVE_FIELDS`
abbrev pub sensitive_fields : List String
sensitive_fields =
    "password" ∷ "secret" ∷ "token" ∷ "api_key" ∷ "access_token" ∷ "refresh_token" ∷ "private_key"
    ∷ "ssn" ∷ "credit_card" ∷ "card_number" ∷ "cvv" ∷ "authorization" ∷ []

unfoldable pub is_sensitive : String → Bool
unfolding is_one_of
is_sensitive key = is_one_of key sensitive_fields

-- `sub p f s` replaces each match of the pattern `p` in `s` by what `f` makes of it.
module _ (sub : Pattern → (String → String) → String → String) where
  -- the loop of `mask_string`
  unfoldable pub mask_patterns : List Pattern → String → String
  unfolding mask_fn
  mask_patterns [] result = result
  mask_patterns (p ∷ ps) result = mask_patterns ps (sub p (mask_fn p) result)

  unfoldable pub mask_string : String → String
  unfolding mask_patterns
  mask_string s = mask_patterns patterns s

  module _ (max_depth : ℕ) where
    -- the loop of `mask_dict`, the branches on a value and the list in it, at a depth
    unfoldable mutual
      unfolding mask_string is_sensitive

      pub mask_fields : ℕ → Fields → Fields
      mask_fields depth end = end
      mask_fields depth (field key v fs) =
          let masked = mask_value depth v in
          let rest = mask_fields depth fs in
          field key (if is_sensitive key then str "***REDACTED***" else masked) rest

      pub mask_value : ℕ → Value → Value
      mask_value depth (str s) = str (mask_string s)
      mask_value depth (dict fs) =
          let masked = mask_fields (suc depth) fs in
          dict (if ltb max_depth (suc depth) then fs else masked)
      mask_value depth (list vs) = list (mask_items depth vs)
      mask_value depth v = v

      pub mask_items : ℕ → Values → Values
      mask_items depth nil = nil
      mask_items depth (cons v vs) = cons (mask_item depth v) (mask_items depth vs)

      pub mask_item : ℕ → Value → Value
      mask_item depth (dict fs) =
          let masked = mask_fields (suc depth) fs in
          dict (if ltb max_depth (suc depth) then fs else masked)
      mask_item depth (str s) = str (mask_string s)
      mask_item depth v = v

    unfoldable pub mask_dict : ℕ → Fields → Fields
    unfolding mask_fields
    mask_dict depth data_fields =
        if ltb max_depth depth then data_fields else mask_fields depth data_fields
