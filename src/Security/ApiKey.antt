-- ===== src/Security/ApiKey.antt =====
-- security/api_key.py: `ApiKeyManager`. What it takes from `secrets` and `hashlib` is a parameter; the
-- state `R` is that of the source of random numbers, an identifier or a time is a number, and the
-- fields that the database fills in later are left out.
pub mod Format
mod Tests
use Prim.Native.String.{◌++◌}
use converse_os.Prelude.{
  ℕ, ◌*◌, ◌≡◌, String, List, [], ◌∷◌, Option, none, some, Bool, true, false, ◌&&◌, ◌==◌, nat_eq,
  string_eq, length, leb, if◌then◌else◌,
}
use converse_os.Prelude.Split.{split, str_length, Lacks}

-- `secrets.token_hex` and `hashlib.sha256(…).hexdigest()`. As documented, a token of `n` bytes is
-- `2 * n` hexadecimal digits, so it holds no underscore.
pub record Crypto : Type 1 where
  pub R : Type 0
  pub token_hex : ℕ → R → String × R
  pub sha256_hex : String → String
  pub token-length : (n : ℕ) (r : R) → str_length (token_hex n r).0 ≡ 2 * n
  pub token-Lacks : (n : ℕ) (r : R) → Lacks "_" (token_hex n r).0

pub record ApiKeyInfo : Type 0 where
  pub id : ℕ
  pub name : String
  pub prefix : String
  pub key_hash : String
  pub tenant_id : ℕ
  pub user_id : ℕ
  pub scopes : List String
  pub expires_at : Option ℕ
  pub last_used_at : Option ℕ
  pub is_active : Bool
  pub created_at : ℕ

pub record GeneratedApiKey : Type 0 where
  pub key : String
  pub info : ApiKeyInfo

-- the arguments of `generate`, and the values of the default factories
pub record KeyRequest : Type 0 where
  pub name : String
  pub tenant_id : ℕ
  pub user_id : ℕ
  pub scopes : Option (List String)
  pub expires_at : Option ℕ
  pub new_id : ℕ
  pub now : ℕ

-- `scopes or []`
unfoldable pub scopes_or : Option (List String) → List String
scopes_or none = []
scopes_or (some scopes) = scopes

module _ (crypto : Crypto) where
  unfoldable pub hash_key : String → String
  hash_key raw_key = crypto.sha256_hex raw_key

  -- `PREFIX_LENGTH // 2` is 4 and `RANDOM_LENGTH // 2` is 16.
  unfoldable pub generate : KeyRequest → crypto.R → GeneratedApiKey × crypto.R
  unfolding hash_key scopes_or
  generate q r =
      let (prefix, r1) = crypto.token_hex 4 r in
      let (random_part, r2) = crypto.token_hex 16 r1 in
      let raw_key = "cvs" ++ ("_" ++ (prefix ++ ("_" ++ random_part))) in
      (
        record {
          key = raw_key;
          info = record {
            id = q.new_id;
            name = q.name;
            prefix = prefix;
            key_hash = hash_key raw_key;
            tenant_id = q.tenant_id;
            user_id = q.user_id;
            scopes = scopes_or q.scopes;
            expires_at = q.expires_at;
            last_used_at = none;
            is_active = true;
            created_at = q.now;
          };
        },
        r2,
      )

  -- `secrets.compare_digest` is the equality of the two texts.
  unfoldable pub validate : String → String → Bool
  unfolding hash_key
  validate raw_key stored_hash = hash_key raw_key == stored_hash

-- the two static methods, on the parts of the key
unfoldable pub prefix_of_parts : List String → Option String
prefix_of_parts (a ∷ b ∷ c ∷ rest) = if a == "cvs" then some b else none
prefix_of_parts _ = none

unfoldable pub extract_prefix : String → Option String
unfolding prefix_of_parts split
extract_prefix raw_key = prefix_of_parts (split "_" raw_key)

unfoldable pub are_valid_parts : List String → Bool
are_valid_parts (a ∷ b ∷ c ∷ []) = a == "cvs" && str_length b == 8
are_valid_parts _ = false

unfoldable pub is_valid_format : String → Bool
unfolding are_valid_parts split
is_valid_format raw_key = are_valid_parts (split "_" raw_key)
