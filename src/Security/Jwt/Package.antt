-- ===== src/Security/Jwt/Package.antt =====
-- What the handler takes from the package `jwt` and from pydantic.
use converse_os.Prelude.{
  ℕ, ◌≤◌, ◌<◌, ◌≡◌, String, Option, none, some, List, string_eq, Result, ok, raise,
}
use converse_os.Prelude.Dict.{Dict, lookup}
use converse_os.Domain.Value.{Value, null, num, str, list, strs, nil}

abbrev pub Claims : Type 0
Claims = Dict String Value

pub record TokenPayload : Type 0 where
  pub sub : String
  pub tenant_id : Option String
  pub org_id : Option String
  pub email : Option String
  pub roles : List String
  pub permissions : List String
  pub token_type : String
  pub jti : String
  pub iat : ℕ
  pub exp : ℕ
  pub iss : String

-- `RuntimeError`, the two exceptions of the package that the handler names, and pydantic's
pub data JwtError : Type 0 where
  runtime : String → JwtError
  expired_signature : JwtError
  invalid_token : JwtError
  invalid_payload : JwtError

-- the value of an optional field in a dict
abbrev pub field_or : Value → Option Value → Value
field_or default none = default
field_or default (some v) = v

abbrev pub nullable : Option String → Value
nullable none = null
nullable (some s) = str s

-- the claims that a `TokenPayload` with these fields is constructed from: a claim that is missing
-- counts as the default of its field
pub record Describes (c : Claims) (p : TokenPayload) : Type 0 where
  pub sub : lookup "sub" c ≡ some (str p.sub)
  pub tenant_id : field_or null (lookup "tenant_id" c) ≡ nullable p.tenant_id
  pub org_id : field_or null (lookup "org_id" c) ≡ nullable p.org_id
  pub email : field_or null (lookup "email" c) ≡ nullable p.email
  pub roles : field_or (list nil) (lookup "roles" c) ≡ list (strs p.roles)
  pub permissions : field_or (list nil) (lookup "permissions" c) ≡ list (strs p.permissions)
  pub token_type : field_or (str "access") (lookup "token_type" c) ≡ str p.token_type
  pub jti : field_or (str "") (lookup "jti" c) ≡ str p.jti
  pub iat : field_or (num 0) (lookup "iat" c) ≡ num p.iat
  pub exp : field_or (num 0) (lookup "exp" c) ≡ num p.exp
  pub iss : field_or (str "converse") (lookup "iss" c) ≡ str p.iss

-- the registered claims of a token that the handler's options ask for, with their values
pub record Stamped (c : Claims) (issuer : String) (issued expires : ℕ) : Type 0 where
  pub sub : (s : String) × (lookup "sub" c ≡ some (str s))
  pub jti : (s : String) × (lookup "jti" c ≡ some (str s))
  pub iat : lookup "iat" c ≡ some (num issued)
  pub exp : lookup "exp" c ≡ some (num expires)
  pub iss : lookup "iss" c ≡ some (str issuer)
  pub no_audience : lookup "aud" c ≡ none
  pub no_start : lookup "nbf" c ≡ none

-- `Token` stands for the texts that `encode` makes. As documented, `decode` with the options of the handler gives back what `encode` has signed with
-- the key of the same pair, while the token is not expired and not of the future; at the second of
-- `exp` it is expired.
pub record JwtPackage : Type 1 where
  pub Token : Type 0
  pub encode : Claims → String → String → Token
  pub decode : Token → String → String → String → ℕ → Result JwtError Claims
  pub decode_unverified : Token → String → Result JwtError Claims
  pub token_payload : Claims → Result JwtError TokenPayload
  pub public_of : String → String
  pub decode-encode :
      (c : Claims) (key algorithm issuer : String) (iat exp now : ℕ)
      → Stamped c issuer iat exp
      → iat ≤ now
      → now < exp
      → decode (encode c key algorithm) (public_of key) algorithm issuer now ≡ ok c
  pub decode-expired :
      (c : Claims) (key algorithm issuer : String) (iat exp now : ℕ)
      → Stamped c issuer iat exp
      → iat ≤ now
      → exp ≤ now
      → decode (encode c key algorithm) (public_of key) algorithm issuer now
        ≡ raise expired_signature
  pub decode_unverified-encode :
      (c : Claims) (key algorithm : String)
      → decode_unverified (encode c key algorithm) algorithm ≡ ok c
  pub token_payload-Describes :
      (c : Claims) (p : TokenPayload) → Describes c p → token_payload c ≡ ok p
