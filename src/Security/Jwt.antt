-- ===== src/Security/Jwt.antt =====
-- security/jwt_handler.py: `JWTHandler`. An identifier is the text that `str` gives of it, a time is a
-- number of seconds. The files of keys, the package `jwt` and the construction of a `TokenPayload`
-- from a dict by pydantic are parameters; the log lines are left out.
pub mod Package
pub mod Payloads
pub mod Lifetime
mod Tests
use converse_os.Prelude.{
  ℕ, ◌+◌, ◌*◌, String, Option, none, some, List, [], ◌∷◌, ◌==◌, string_eq, Result, ok, raise, ◌>>=◌,
  if◌then◌else◌,
}
use converse_os.Prelude.Dict.{Dict, update, lookup}
use converse_os.Domain.Value.{Value, null, num, str, list, strs}
use converse_os.Security.Jwt.Package.{Claims, TokenPayload, JwtError, JwtPackage, runtime, nullable}

pub record TokenPair (T : Type 0) : Type 0 where
  pub access_token : T
  pub refresh_token : T
  pub token_type : String
  pub expires_in : ℕ

pub record JwtHandler : Type 0 where
  pub private_key : Option String
  pub public_key : Option String
  pub algorithm : String
  pub access_token_expire_minutes : ℕ
  pub refresh_token_expire_days : ℕ
  pub issuer : String

-- the key after `if path and Path(path).exists()`; `read_file` is `none` where there is no file
unfoldable pub load_key : (String → Option String) → Option String → Option String → Option String
load_key read_file none key = key
load_key read_file (some path) key =
    if path == "" then key else elim (read_file path) [ none ↦ key | some content ↦ some content ]

-- the constructor
unfoldable pub make_handler :
    (String → Option String)
    → Option String
    → Option String
    → Option String
    → Option String
    → String
    → ℕ
    → ℕ
    → String
    → JwtHandler
unfolding load_key
make_handler read_file private_key_path public_key_path private_key public_key algorithm minutes
      days issuer =
    record {
      private_key = load_key read_file private_key_path private_key;
      public_key = load_key read_file public_key_path public_key;
      algorithm = algorithm;
      access_token_expire_minutes = minutes;
      refresh_token_expire_days = days;
      issuer = issuer;
    }

-- the guard `if not key: raise RuntimeError(…)`
unfoldable pub require_key : Option String → String → Result JwtError String
require_key none message = raise (runtime message)
require_key (some key) message = if key == "" then raise (runtime message) else ok key

-- the arguments of `create_access_token` and `create_token_pair`
pub record Grant : Type 0 where
  pub user_id : String
  pub tenant_id : Option String
  pub org_id : Option String
  pub email : Option String
  pub roles : List String
  pub permissions : List String

-- the payload of an access token, before the extra claims
unfoldable pub access_claims : JwtHandler → Grant → String → ℕ → Claims
access_claims h g jti now =
    ("sub", str g.user_id)
    ∷ ("tenant_id", nullable g.tenant_id)
    ∷ ("org_id", nullable g.org_id)
    ∷ ("email", nullable g.email)
    ∷ ("roles", list (strs g.roles))
    ∷ ("permissions", list (strs g.permissions))
    ∷ ("token_type", str "access")
    ∷ ("jti", str jti)
    ∷ ("iat", num now)
    ∷ ("exp", num (now + h.access_token_expire_minutes * 60))
    ∷ ("iss", str h.issuer)
    ∷ []

unfoldable pub refresh_claims : JwtHandler → String → Option String → String → ℕ → Claims
refresh_claims h user_id tenant_id jti now =
    ("sub", str user_id)
    ∷ ("tenant_id", nullable tenant_id)
    ∷ ("token_type", str "refresh")
    ∷ ("jti", str jti)
    ∷ ("iat", num now)
    ∷ ("exp", num (now + h.refresh_token_expire_days * 86400))
    ∷ ("iss", str h.issuer)
    ∷ []

module _ (jwt : JwtPackage) (h : JwtHandler) where
  -- `jti` and `now` are a new identifier and the reading of the clock
  unfoldable pub create_access_token : Grant → Claims → String → ℕ → Result JwtError jwt.Token
  unfolding require_key access_claims update
  create_access_token g extra_claims jti now =
      require_key h.private_key "Private key not configured for token signing." >>= λ key.
      ok (jwt.encode (update (access_claims h g jti now) extra_claims) key h.algorithm)

  unfoldable pub create_refresh_token :
      String → Option String → String → ℕ → Result JwtError jwt.Token
  unfolding require_key refresh_claims
  create_refresh_token user_id tenant_id jti now =
      require_key h.private_key "Private key not configured for token signing." >>= λ key.
      ok (jwt.encode (refresh_claims h user_id tenant_id jti now) key h.algorithm)

  -- the two tokens have an identifier and a reading of the clock each
  unfoldable pub create_token_pair :
      Grant → String → ℕ → String → ℕ → Result JwtError (TokenPair jwt.Token)
  unfolding create_access_token create_refresh_token
  create_token_pair g jti now jti' now' = create_access_token g [] jti now >>= λ access.
      create_refresh_token g.user_id g.tenant_id jti' now' >>= λ refresh. ok (record {
        access_token = access;
        refresh_token = refresh;
        token_type = "Bearer";
        expires_in = h.access_token_expire_minutes * 60;
      })

  unfoldable pub validate_token : jwt.Token → ℕ → Result JwtError TokenPayload
  unfolding require_key
  validate_token token now =
      require_key h.public_key "Public key not configured for token validation." >>= λ key.
      jwt.decode token key h.algorithm h.issuer now >>= λ payload. jwt.token_payload payload

  unfoldable pub decode_without_verification : jwt.Token → Result JwtError Claims
  decode_without_verification token = jwt.decode_unverified token h.algorithm

  -- `payload.get("jti", "")`
  unfoldable pub get_jti : jwt.Token → Result JwtError Value
  unfolding decode_without_verification lookup
  get_jti token = decode_without_verification token >>= λ payload.
      ok (elim (lookup "jti" payload) [ none ↦ str "" | some v ↦ v ])
