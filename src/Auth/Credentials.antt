-- ===== src/Auth/Credentials.antt =====
-- domain/entities/user_credentials.py: `UserCredentials` and the lock after failed logins. Each
-- reading of the clock, in seconds, is an argument in the order of the calls.
pub mod Lockout
mod Tests
use converse_os.Prelude.{
  ℕ, String, ◌+◌, ◌*◌, Option, none, some, List, [], ◌∷◌, Bool, true, false, ltb, leb,
  if◌then◌else◌,
}
use converse_os.Domain.Events.{DomainEvent}
use converse_os.Domain.Entity.{BaseEntity, AggregateRoot, new_root, touch}

pub record UserCredentials : Type 0 where
  pub root : AggregateRoot DomainEvent
  pub user_id : ℕ
  pub email : String
  pub password_hash : Option String
  pub is_active : Bool
  pub is_email_verified : Bool
  pub last_login_at : Option ℕ
  pub failed_login_attempts : ℕ
  pub locked_until : Option ℕ

-- `create`, on the entity that the default factories make
unfoldable pub create : BaseEntity → ℕ → String → Option String → Bool → UserCredentials
unfolding new_root
create entity user_id email password_hash is_active = record {
  root = new_root entity;
  user_id = user_id;
  email = email;
  password_hash = password_hash;
  is_active = is_active;
  is_email_verified = false;
  last_login_at = none;
  failed_login_attempts = 0;
  locked_until = none;
}

-- `self.mark_updated()`
abbrev mark : ℕ → UserCredentials → UserCredentials
mark now c = record c { root = touch now c.root }

unfoldable pub record_successful_login : ℕ → ℕ → UserCredentials → UserCredentials
unfolding touch
record_successful_login now later c =
    mark later
      (record c { last_login_at = some now; failed_login_attempts = 0; locked_until = none })

-- `max_attempts` and `lock_duration_minutes` come first; the code's defaults are 5 and 15. The first
-- reading of the clock is made only where the account is locked.
unfoldable pub record_failed_login : ℕ → ℕ → ℕ → ℕ → UserCredentials → UserCredentials
unfolding touch
record_failed_login max_attempts lock_duration_minutes now later c =
    let attempts = c.failed_login_attempts + 1 in
    mark later (record c {
      failed_login_attempts = attempts;
      locked_until =
          if leb max_attempts attempts
          then some (now + lock_duration_minutes * 60)
          else c.locked_until;
    })

unfoldable pub is_locked : ℕ → UserCredentials → Bool
is_locked now c = elim c.locked_until [ none ↦ false | some until ↦ ltb now until ]

unfoldable pub update_password : String → ℕ → UserCredentials → UserCredentials
unfolding touch
update_password new_password_hash now c =
    mark now (record c { password_hash = some new_password_hash })
