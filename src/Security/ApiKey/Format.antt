-- ===== src/Security/ApiKey/Format.antt =====
-- A generated key has the format that the manager accepts.
use Prim.Native.String.{[], ◌∷◌, ◌++◌}
use mathlib.Core.Bool.{false≢true}
use text.Mathlib.TextLemmas.{nil-append, cons-append}
use converse_os.Prelude.{
  ◌≡◌, refl, sym, ap, ◌∙◌, ◌↔◌, String, List, [], ◌∷◌, some, true, ==_refl, ==_iff, string_eq,
  nat_eq, arith, All,
}
use converse_os.Prelude.Split.{
  split, join, str_length, Lacks, split-Lacks, split-append, split-Lacking, join-split,
}
use converse_os.Security.ApiKey.{
  Crypto, KeyRequest, hash_key, generate, validate, prefix_of_parts, extract_prefix,
  are_valid_parts, is_valid_format,
}

-- what a key looks like: three parts, the second of eight characters
pub record IsKey (prefix random raw_key : String) : Type 0 where
  pub shape : raw_key ≡ "cvs" ++ ("_" ++ (prefix ++ ("_" ++ random)))
  pub prefix_length : str_length prefix ≡ 8
  pub prefix_plain : Lacks "_" prefix
  pub random_plain : Lacks "_" random

underscore-append : (s : String) → "_" ++ s ≡ "_" ∷ s
underscore-append s = cons-append "_" "" s ∙ ap (λ t. "_" ∷ t) (nil-append s)

cvs-Lacks : Lacks "_" "cvs"
cvs-Lacks = (omega arith, (omega arith, (omega arith, tt)))

underscored :
    (p r : String) → "cvs" ++ ("_" ++ (p ++ ("_" ++ r))) ≡ "cvs" ++ ("_" ∷ (p ++ ("_" ∷ r)))
underscored p r =
    ap (λ t. "cvs" ++ t) (underscore-append _)
    ∙ ap (λ t. "cvs" ++ ("_" ∷ (p ++ t))) (underscore-append r)

split-IsKey :
    (prefix random raw_key : String)
    → IsKey prefix random raw_key
    → split "_" raw_key ≡ "cvs" ∷ prefix ∷ random ∷ []
split-IsKey prefix random raw_key k =
    ap (split "_") (k.shape ∙ underscored prefix random)
    ∙ split-append "_" "cvs" _ cvs-Lacks
    ∙ ap (λ ps. "cvs" ∷ ps) (split-append "_" prefix random k.prefix_plain)
    ∙ ap (λ ps. "cvs" ∷ prefix ∷ ps) (split-Lacks "_" random k.random_plain)

are_valid_parts-IsKey :
    (raw_key : String) (ps : List String)
    → are_valid_parts ps ≡ true
    → All (Lacks "_") ps
    → join "_" ps ≡ raw_key
    → (prefix : String) × (random : String) × IsKey prefix random raw_key
unfolding are_valid_parts
are_valid_parts-IsKey raw_key (a ∷ b ∷ c ∷ []) h k j = (
  b,
  c,
  record {
    shape = sym j ∙ ap (λ t. t ++ ("_" ∷ (b ++ ("_" ∷ c)))) named ∙ sym (underscored b c);
    prefix_length = eight;
    prefix_plain = k.1.0;
    random_plain = k.1.1.0;
  },
)
  where
    named : a ≡ "cvs"
    named = ground (arith, ==_iff a "cvs")

    eight : str_length b ≡ 8
    eight = ground arith
are_valid_parts-IsKey raw_key [] h _ j = absurd (false≢true h)
are_valid_parts-IsKey raw_key (a ∷ []) h _ j = absurd (false≢true h)
are_valid_parts-IsKey raw_key (a ∷ b ∷ []) h _ j = absurd (false≢true h)
are_valid_parts-IsKey raw_key (a ∷ b ∷ c ∷ d ∷ ps) h _ j = absurd (false≢true h)

valid_parts : (p r : String) → str_length p ≡ 8 → are_valid_parts ("cvs" ∷ p ∷ r ∷ []) ≡ true
unfolding are_valid_parts
valid_parts p r h = rw h refl

-- The format check accepts exactly the texts of three parts "cvs", a prefix of eight characters and a
-- rest, with single underscores between them and none inside the parts.
pub is_valid_format_iff :
    (raw_key : String)
    → (is_valid_format raw_key ≡ true)
      ↔ ((prefix : String) × (random : String) × IsKey prefix random raw_key)
unfolding is_valid_format
is_valid_format_iff raw_key = (
  λ h. are_valid_parts-IsKey raw_key _ h (split-Lacking "_" raw_key) (join-split "_" raw_key),
  λ k. ap are_valid_parts (split-IsKey k.0 k.1 raw_key k.2) ∙ valid_parts k.0 k.1 k.2.prefix_length,
)

module _ (crypto : Crypto) where
  generate-IsKey :
      (q : KeyRequest) (r : crypto.R)
      → let key = (generate crypto q r).0 in
        IsKey key.info.prefix (crypto.token_hex 16 (crypto.token_hex 4 r).1).0 key.key
  unfolding generate
  generate-IsKey q r = record {
    shape = refl;
    prefix_length = crypto.token-length 4 r;
    prefix_plain = crypto.token-Lacks 4 r;
    random_plain = crypto.token-Lacks 16 _;
  }

  -- A key that the manager generates has the accepted format, leads back to the prefix under which it
  -- is stored, and is validated against the stored hash; a text is validated against this hash
  -- exactly when its own hash is the same.
  pub generate-accepted :
      (q : KeyRequest) (r : crypto.R)
      → let key = (generate crypto q r).0 in
        (is_valid_format key.key ≡ true)
        × (extract_prefix key.key ≡ some key.info.prefix)
        × (validate crypto key.key key.info.key_hash ≡ true)
        × ((text : String)
            → (validate crypto text key.info.key_hash ≡ true)
              ↔ (crypto.sha256_hex text ≡ crypto.sha256_hex key.key))
  unfolding generate extract_prefix prefix_of_parts validate hash_key
  generate-accepted q r =
      let parts = split-IsKey _ _ _ (generate-IsKey q r) in
      (
        (is_valid_format_iff _).1 (_, _, generate-IsKey q r),
        ap prefix_of_parts parts ∙ refl,
        ==_refl {K = String} _,
        λ text. ==_iff _ _,
      )
