-- ===== src/Domain/Names.antt =====
-- domain/value_objects.py: `SlugVO`, `Email` and `SortOrder`. A construction is `none` where it raises
-- a validation error. `str.lower` is a parameter.
pub mod Slugs
pub mod Addresses
mod Tests
use Prim.Native.Char.{code}
use converse_os.Prelude.{
  ℕ, String, Option, none, some, Bool, ◌&&◌, ◌||◌, leb, ◌==◌, nat_eq, string_eq, if◌then◌else◌,
}
use converse_os.Prelude.Split.{str_length}
use converse_os.Prelude.Strip.{strip}
use converse_os.Prelude.Regex.{Regex, chars, seq, star, plus, match_end}

-- [a-z0-9]
abbrev pub is_slug_code : ℕ → Bool
is_slug_code n = leb b'a' n && leb n b'z' || leb b'0' n && leb n b'9'

abbrev pub is_dash : ℕ → Bool
is_dash n = n == b'-'

-- [a-zA-Z]
abbrev pub is_letter : ℕ → Bool
is_letter n = leb b'a' n && leb n b'z' || leb b'A' n && leb n b'Z'

-- [a-zA-Z0-9.-]
abbrev pub is_domain_code : ℕ → Bool
is_domain_code n = is_letter n || leb b'0' n && leb n b'9' || n == b'.' || n == b'-'

-- [a-zA-Z0-9._%+-]
abbrev pub is_local_code : ℕ → Bool
is_local_code n = is_domain_code n || n == b'_' || n == b'%' || n == b'+'

-- ^[a-z0-9]+(?:-[a-z0-9]+)*$
abbrev pub slug_pattern : Regex
slug_pattern =
    seq (plus (chars is_slug_code)) (star (seq (chars is_dash) (plus (chars is_slug_code))))

-- ^[a-zA-Z0-9._%+-]+@[a-zA-Z0-9.-]+\.[a-zA-Z]{2,}$
abbrev pub email_pattern : Regex
email_pattern = seq (plus (chars is_local_code)) (
    seq (chars (λ n. n == b'@')) (
      seq (plus (chars is_domain_code))
        (seq (chars (λ n. n == b'.')) (seq (chars is_letter) (plus (chars is_letter))))))

-- `SlugVO(value=v)`
unfoldable pub make_slug : String → Option String
make_slug v = if leb (str_length v) 128 && match_end slug_pattern v then some v else none

-- `Email(value=v)`
unfoldable pub make_email : (String → String) → String → Option String
make_email lower v = if match_end email_pattern v then some (strip (lower v)) else none

pub record SortOrder : Type 0 where
  pub field : String
  pub direction : String

-- `SortOrder(field=…, direction=…)`; the pattern of pydantic matches no newline at the end
unfoldable pub make_sort_order : String → String → Option SortOrder
make_sort_order field direction =
    if direction == "asc" || direction == "desc"
    then some (record { field = field; direction = direction })
    else none
