-- ===== src/Security/Jwt/Lifetime.antt =====
-- From when to when a token of the handler is valid, and what it says.
use converse_os.Prelude.{
  ℕ, ◌+◌, ◌*◌, ◌≤◌, ◌≡◌, refl, inl, inr, String, Option, some, [], ltb, if◌then◌else◌, ok, raise,
  ◌>>=◌, arith, Bool-cases,
}
use converse_os.Prelude.Dict.{update}
use converse_os.Security.Jwt.Package.{
  Claims, TokenPayload, Describes, Stamped, JwtPackage, expired_signature,
}
use converse_os.Security.Jwt.Payloads.{
  HasPair, require_key-some, access_payload, refresh_payload, access_claims-Describes,
  access_claims-Stamped, refresh_claims-Describes, refresh_claims-Stamped,
}
use converse_os.Security.Jwt.{
  JwtHandler, Grant, require_key, access_claims, refresh_claims, create_access_token,
  create_refresh_token, validate_token,
}

module _ (jwt : JwtPackage) (h : JwtHandler) (key : String) (pair : HasPair jwt h key) where
  -- the token of some claims, while it is valid and afterwards
  validate_token-encode :
      (c : Claims) (p : TokenPayload) (issued expires now : ℕ)
      → Stamped c h.issuer issued expires
      → Describes c p
      → issued ≤ now
      → validate_token jwt h (jwt.encode c key h.algorithm) now
        ≡ (if ltb now expires then ok p else raise expired_signature)
  unfolding validate_token
  validate_token-encode c p issued expires now stamped described begun =
      elim (Bool-cases (ltb now expires)) [
        | inl valid ↦
            let accepted =
              jwt.decode-encode c key h.algorithm h.issuer issued expires now stamped begun
                (ground arith) in
            rw (pair.public_key, given, accepted, jwt.token_payload-Describes c p described, valid)
              refl
        | inr over ↦
            let refused =
              jwt.decode-expired c key h.algorithm h.issuer issued expires now stamped begun
                (ground arith) in
            rw (pair.public_key, given, refused, over) refl
      ]
    where
      given :
          require_key (some (jwt.public_of key)) "Public key not configured for token validation."
          ≡ ok (jwt.public_of key)
      given = require_key-some (jwt.public_of key) _ pair.public_given

  create_access_token-encode :
      (g : Grant) (jti : String) (now : ℕ)
      → create_access_token jwt h g [] jti now
        ≡ ok (jwt.encode (access_claims h g jti now) key h.algorithm)
  unfolding create_access_token update
  create_access_token-encode g jti now =
      rw (pair.private_key, require_key-some key _ pair.private_given) refl

  create_refresh_token-encode :
      (user_id : String) (tenant_id : Option String) (jti : String) (now : ℕ)
      → create_refresh_token jwt h user_id tenant_id jti now
        ≡ ok (jwt.encode (refresh_claims h user_id tenant_id jti now) key h.algorithm)
  unfolding create_refresh_token
  create_refresh_token-encode user_id tenant_id jti now =
      rw (pair.private_key, require_key-some key _ pair.private_given) refl

  -- The handler holds both keys of one pair, the package does what is documented, and an access token
  -- is made without extra claims. Then a token of either kind is valid from the second in which it is made until just before the one in
  -- which its time is over, and then expired. While it is valid, validation gives the payload with
  -- the identifiers, roles and permissions that it was made for; a refresh token passes the same
  -- validation, with its own type and without roles.
  pub validate_token-create :
      (g : Grant) (jti : String) (made now : ℕ)
      → made ≤ now
      → ((create_access_token jwt h g [] jti made >>= λ token. validate_token jwt h token now) ≡ (
          if ltb now (made + h.access_token_expire_minutes * 60)
          then ok (access_payload h g jti made)
          else raise expired_signature))
        × ((create_refresh_token jwt h g.user_id g.tenant_id jti made >>= λ token.
              validate_token jwt h token now)
            ≡ (if ltb now (made + h.refresh_token_expire_days * 86400)
                then ok (refresh_payload h g.user_id g.tenant_id jti made)
                else raise expired_signature))
  validate_token-create g jti made now begun = (
    rw (create_access_token-encode g jti made) (
        validate_token-encode _ _ made _ now (access_claims-Stamped h g jti made)
          (access_claims-Describes h g jti made) begun),
    rw (create_refresh_token-encode g.user_id g.tenant_id jti made) (
        validate_token-encode _ _ made _ now
          (refresh_claims-Stamped h g.user_id g.tenant_id jti made)
          (refresh_claims-Describes h g.user_id g.tenant_id jti made) begun),
  )
