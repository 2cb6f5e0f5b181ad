-- ===== src/Security/Jwt/Payloads.antt =====
-- The claims of a token that the handler creates come back when it is validated.
use converse_os.Prelude.{
  ℕ, ◌+◌, ◌*◌, ◌≡◌, refl, String, Option, none, some, [], ok, string_eq, ◌≢◌, arith, ==_iff,
}
use converse_os.Prelude.Dict.{lookup}
use converse_os.Security.Jwt.Package.{TokenPayload, Describes, Stamped, JwtPackage}
use converse_os.Security.Jwt.{JwtHandler, Grant, require_key, access_claims, refresh_claims}

-- the handler has the two keys of one pair
pub record HasPair (jwt : JwtPackage) (h : JwtHandler) (key : String) : Type 0 where
  pub private_key : h.private_key ≡ some key
  pub public_key : h.public_key ≡ some (jwt.public_of key)
  pub private_given : key ≢ ""
  pub public_given : jwt.public_of key ≢ ""

pub require_key-some : (key message : String) → key ≢ "" → require_key (some key) message ≡ ok key
unfolding require_key
require_key-some key message h = ground (arith, ==_iff key "")

abbrev pub access_payload : JwtHandler → Grant → String → ℕ → TokenPayload
access_payload h g jti now = record {
  sub = g.user_id;
  tenant_id = g.tenant_id;
  org_id = g.org_id;
  email = g.email;
  roles = g.roles;
  permissions = g.permissions;
  token_type = "access";
  jti = jti;
  iat = now;
  exp = now + h.access_token_expire_minutes * 60;
  iss = h.issuer;
}

abbrev pub refresh_payload : JwtHandler → String → Option String → String → ℕ → TokenPayload
refresh_payload h user_id tenant_id jti now = record {
  sub = user_id;
  tenant_id = tenant_id;
  org_id = none;
  email = none;
  roles = [];
  permissions = [];
  token_type = "refresh";
  jti = jti;
  iat = now;
  exp = now + h.refresh_token_expire_days * 86400;
  iss = h.issuer;
}

pub access_claims-Describes :
    (h : JwtHandler) (g : Grant) (jti : String) (now : ℕ)
    → Describes (access_claims h g jti now) (access_payload h g jti now)
unfolding access_claims lookup
access_claims-Describes h g jti now = record {
  sub = refl;
  tenant_id = refl;
  org_id = refl;
  email = refl;
  roles = refl;
  permissions = refl;
  token_type = refl;
  jti = refl;
  iat = refl;
  exp = refl;
  iss = refl;
}

pub access_claims-Stamped :
    (h : JwtHandler) (g : Grant) (jti : String) (now : ℕ)
    → Stamped (access_claims h g jti now) h.issuer now (now + h.access_token_expire_minutes * 60)
unfolding access_claims lookup
access_claims-Stamped h g jti now = record {
  sub = (g.user_id, refl);
  jti = (jti, refl);
  iat = refl;
  exp = refl;
  iss = refl;
  no_audience = refl;
  no_start = refl;
}

pub refresh_claims-Describes :
    (h : JwtHandler) (user_id : String) (tenant_id : Option String) (jti : String) (now : ℕ)
    → Describes
        (refresh_claims h user_id tenant_id jti now)
        (refresh_payload h user_id tenant_id jti now)
unfolding refresh_claims lookup
refresh_claims-Describes h user_id tenant_id jti now = record {
  sub = refl;
  tenant_id = refl;
  org_id = refl;
  email = refl;
  roles = refl;
  permissions = refl;
  token_type = refl;
  jti = refl;
  iat = refl;
  exp = refl;
  iss = refl;
}

pub refresh_claims-Stamped :
    (h : JwtHandler) (user_id : String) (tenant_id : Option String) (jti : String) (now : ℕ)
    → Stamped
        (refresh_claims h user_id tenant_id jti now)
        h.issuer
        now
        (now + h.refresh_token_expire_days * 86400)
unfolding refresh_claims lookup
refresh_claims-Stamped h user_id tenant_id jti now = record {
  sub = (user_id, refl);
  jti = (jti, refl);
  iat = refl;
  exp = refl;
  iss = refl;
  no_audience = refl;
  no_start = refl;
}
