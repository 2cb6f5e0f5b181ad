-- ===== src/Auth/Password.antt =====
-- domain/value_objects/password.py: `PasswordHash`. The package passlib is a parameter.
use converse_os.Prelude.{String, Bool, Result, ok, raise, ltb, if◌then◌else◌}
use converse_os.Prelude.Split.{str_length}
use converse_os.Domain.Exceptions.{Exn, value_error}

-- `pwd_context`: `hash`, whose salt is its first argument, and `verify`
pub record CryptContext : Type 1 where
  pub Salt : Type 0
  pub hash : Salt → String → String
  pub verify : String → String → Bool

module _ (pwd_context : CryptContext) where
  -- `PasswordHash.create`
  unfoldable pub create_hash : pwd_context.Salt → String → Result Exn String
  create_hash salt raw_password =
      if ltb (str_length raw_password) 8
      then raise (value_error "Password must be at least 8 characters long")
      else ok (pwd_context.hash salt raw_password)

  -- `verify` of the hash
  unfoldable pub verify_hash : String → String → Bool
  verify_hash value raw_password = pwd_context.verify raw_password value
