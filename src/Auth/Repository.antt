-- ===== src/Auth/Repository.antt =====
-- infrastructure/persistence/credential_repo_impl.py: `SqlUserCredentialsRepository`.
pub mod Registered
mod Tests
use converse_os.Prelude.{ℕ, String, Option, Bool, ◌==◌, string_eq, Result}
use converse_os.Domain.Exceptions.{Exn}
use converse_os.Infrastructure.Rows.{Table, upsert, to_entity, find_one}
use converse_os.Auth.Credentials.{UserCredentials}

pub record UserCredentialsModel : Type 0 where
  pub email : String
  pub password_hash : Option String
  pub is_active : Bool
  pub is_email_verified : Bool
  pub last_login_at : Option ℕ
  pub failed_login_attempts : ℕ
  pub locked_until : Option ℕ

-- Both branches of `save` write all of the columns.
unfoldable pub model_of : UserCredentials → UserCredentialsModel
model_of c = record {
  email = c.email;
  password_hash = c.password_hash;
  is_active = c.is_active;
  is_email_verified = c.is_email_verified;
  last_login_at = c.last_login_at;
  failed_login_attempts = c.failed_login_attempts;
  locked_until = c.locked_until;
}

module _ (table : Table UserCredentialsModel) where
  unfoldable pub save_credentials : UserCredentials → table.S → Result Exn (Unit {0}) × table.S
  unfolding upsert model_of
  save_credentials c s = upsert table c.user_id (model_of c) (λ model. model_of c) s

  unfoldable pub credentials_by_id : ℕ → table.S → Result Exn (Option UserCredentials)
  unfolding to_entity
  credentials_by_id user_id s = to_entity table (table.get s user_id)

  unfoldable pub credentials_by_email : String → table.S → Result Exn (Option UserCredentials)
  unfolding find_one
  credentials_by_email email s = find_one table (λ model. model.email == email) s
