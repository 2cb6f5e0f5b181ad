-- ===== src/Security/Jwt/Tests.antt =====
-- The theorem with a package whose tokens are the claims beside the key and the algorithm.
use converse_os.Prelude.{
  ℕ, ◌≤◌, ◌<◌, ◌≡◌, refl, ap, String, Option, none, some, List, [], ◌∷◌, true, false, ltb, ◌==◌,
  ==_refl, ◌∙◌, string_eq, if◌then◌else◌, Result, ok, raise, ◌>>=◌, arith,
}
use converse_os.Prelude.Dict.{lookup}
use converse_os.Domain.Value.{Value, null, num, str, list, Values, nil, cons, strs}
use converse_os.Security.Jwt.Package.{
  Claims, TokenPayload, JwtError, expired_signature, invalid_token, field_or, nullable, Describes,
  Stamped, JwtPackage,
}
use converse_os.Security.Jwt.Payloads.{HasPair, access_payload, refresh_payload}
use converse_os.Security.Jwt.Lifetime.{validate_token-create}
use converse_os.Security.Jwt.{
  JwtHandler, Grant, create_access_token, create_refresh_token, validate_token,
}

abbrev read_str : Value → String
read_str (str s) = s
read_str _ = ""

abbrev read_nullable : Value → Option String
read_nullable (str s) = some s
read_nullable _ = none

abbrev read_num : Value → ℕ
read_num (num n) = n
read_num _ = 0

abbrev read_values : Values → List String
read_values nil = []
read_values (cons v vs) = read_str v ∷ read_values vs

abbrev read_list : Value → List String
read_list (list vs) = read_values vs
read_list _ = []

read_values-strs : (ss : List String) → read_values (strs ss) ≡ ss
read_values-strs [] = refl
read_values-strs (s ∷ ss) = ap (λ rest. s ∷ rest) (read_values-strs ss)

read_nullable-nullable : (o : Option String) → read_nullable (nullable o) ≡ o
read_nullable-nullable none = refl
read_nullable-nullable (some s) = refl

abbrev token_payload : Claims → Result JwtError TokenPayload
token_payload c = ok (record {
  sub = read_str (field_or null (lookup "sub" c));
  tenant_id = read_nullable (field_or null (lookup "tenant_id" c));
  org_id = read_nullable (field_or null (lookup "org_id" c));
  email = read_nullable (field_or null (lookup "email" c));
  roles = read_list (field_or (list nil) (lookup "roles" c));
  permissions = read_list (field_or (list nil) (lookup "permissions" c));
  token_type = read_str (field_or (str "access") (lookup "token_type" c));
  jti = read_str (field_or (str "") (lookup "jti" c));
  iat = read_num (field_or (num 0) (lookup "iat" c));
  exp = read_num (field_or (num 0) (lookup "exp" c));
  iss = read_str (field_or (str "converse") (lookup "iss" c));
})

token_payload-Describes : (c : Claims) (p : TokenPayload) → Describes c p → token_payload c ≡ ok p
token_payload-Describes c p d = λ i. ok (record {
  sub = ap (λ o. read_str (field_or null o)) d.sub i;
  tenant_id = (ap read_nullable d.tenant_id ∙ read_nullable-nullable p.tenant_id) i;
  org_id = (ap read_nullable d.org_id ∙ read_nullable-nullable p.org_id) i;
  email = (ap read_nullable d.email ∙ read_nullable-nullable p.email) i;
  roles = (ap read_list d.roles ∙ read_values-strs p.roles) i;
  permissions = (ap read_list d.permissions ∙ read_values-strs p.permissions) i;
  token_type = ap read_str d.token_type i;
  jti = ap read_str d.jti i;
  iat = ap read_num d.iat i;
  exp = ap read_num d.exp i;
  iss = ap read_str d.iss i;
})

record Token : Type 0 where
  claims : Claims
  key : String
  algorithm : String

abbrev checked : Option Value → Claims → ℕ → Result JwtError Claims
checked (some (num e)) c now = if ltb now e then ok c else raise expired_signature
checked _ c now = raise invalid_token

abbrev decode : Token → String → String → String → ℕ → Result JwtError Claims
decode t key algorithm issuer now =
    if t.key == key then checked (lookup "exp" t.claims) t.claims now else raise invalid_token

decode-encode :
    (c : Claims) (key algorithm issuer : String) (iat exp now : ℕ)
    → Stamped c issuer iat exp
    → iat ≤ now
    → now < exp
    → decode (record { claims = c; key = key; algorithm = algorithm }) key algorithm issuer now
      ≡ ok c
decode-encode c key algorithm issuer iat exp now s begun valid =
    let fresh : ltb now exp ≡ true = ground arith in rw (==_refl key, s.exp, fresh) refl

decode-expired :
    (c : Claims) (key algorithm issuer : String) (iat exp now : ℕ)
    → Stamped c issuer iat exp
    → iat ≤ now
    → exp ≤ now
    → decode (record { claims = c; key = key; algorithm = algorithm }) key algorithm issuer now
      ≡ raise expired_signature
decode-expired c key algorithm issuer iat exp now s begun over =
    let late : ltb now exp ≡ false = ground arith in rw (==_refl key, s.exp, late) refl

abbrev jwt : JwtPackage
jwt = record {
  Token = Token;
  encode = λ c key algorithm. record { claims = c; key = key; algorithm = algorithm };
  decode = decode;
  decode_unverified = λ t algorithm. ok t.claims;
  token_payload = token_payload;
  public_of = λ key. key;
  decode-encode = decode-encode;
  decode-expired = decode-expired;
  decode_unverified-encode = λ c key algorithm. refl;
  token_payload-Describes = token_payload-Describes;
}

abbrev handler : JwtHandler
handler = record {
  private_key = some "k";
  public_key = some "k";
  algorithm = "RS256";
  access_token_expire_minutes = 30;
  refresh_token_expire_days = 30;
  issuer = "converse";
}

abbrev grant : Grant
grant = record {
  user_id = "u-1";
  tenant_id = some "t-1";
  org_id = none;
  email = none;
  roles = "viewer" ∷ [];
  permissions = [];
}

pair : HasPair jwt handler "k"
pair = record { private_key = refl; public_key = refl; private_given = cc; public_given = cc }

validate_token-create_example :
    ((create_access_token jwt handler grant [] "j" 1000 >>= λ token.
    validate_token jwt handler token 2799)
      ≡ (if ltb 2799 2800
          then ok (access_payload handler grant "j" 1000)
          else raise expired_signature))
    × ((create_refresh_token jwt handler "u-1" (some "t-1") "j" 1000 >>= λ token.
          validate_token jwt handler token 2799)
        ≡ (if ltb 2799 2593000
            then ok (refresh_payload handler "u-1" (some "t-1") "j" 1000)
            else raise expired_signature))
validate_token-create_example =
    validate_token-create jwt handler "k" pair grant "j" 1000 2799 (omega arith)
