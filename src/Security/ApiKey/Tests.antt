-- ===== src/Security/ApiKey/Tests.antt =====
-- The theorems with tokens that repeat one digit and a hash that keeps the text.
use Prim.Native.String.{◌∷◌}
use converse_os.Prelude.{ℕ, zero, suc, ◌*◌, ◌≡◌, refl, ◌↔◌, String, none, some, true, arith}
use converse_os.Prelude.Split.{str_length, Lacks}
use converse_os.Security.ApiKey.{
  Crypto, KeyRequest, generate, validate, extract_prefix, is_valid_format,
}
use converse_os.Security.ApiKey.Format.{generate-accepted}

abbrev digits : ℕ → String
digits zero = ""
digits (suc n) = "a" ∷ ("a" ∷ digits n)

length-digits : (n : ℕ) → str_length (digits n) ≡ 2 * n
length-digits zero = refl
length-digits (suc n) = omega (arith, length-digits n)

digits-Lacks : (n : ℕ) → Lacks "_" (digits n)
digits-Lacks zero = tt
digits-Lacks (suc n) = (omega arith, (omega arith, digits-Lacks n))

abbrev crypto : Crypto
crypto = record {
  R = ℕ;
  token_hex = λ n r. (digits n, suc r);
  sha256_hex = λ s. s;
  token-length = λ n r. length-digits n;
  token-Lacks = λ n r. digits-Lacks n;
}

abbrev request : KeyRequest
request = record {
  name = "My Key";
  tenant_id = 1;
  user_id = 2;
  scopes = none;
  expires_at = none;
  new_id = 3;
  now = 1000;
}

is_valid_format_test : is_valid_format "cvs_abcd1234_ff" ≡ true
unfolding is_valid_format
is_valid_format_test = refl

generate-accepted_example :
    let key = (generate crypto request 0).0 in
    (is_valid_format key.key ≡ true)
    × (extract_prefix key.key ≡ some key.info.prefix)
    × (validate crypto key.key key.info.key_hash ≡ true)
    × ((text : String)
        → (validate crypto text key.info.key_hash ≡ true)
          ↔ (crypto.sha256_hex text ≡ crypto.sha256_hex key.key))
generate-accepted_example = generate-accepted crypto request 0
