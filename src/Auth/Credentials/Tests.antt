-- ===== src/Auth/Credentials/Tests.antt =====
-- Runs of the lock, and instances of its theorems.
use converse_os.Prelude.{◌≡◌, refl, none, some, List, [], ◌∷◌, true, false, ◌&&◌, ltb, leb}
use converse_os.Domain.Entity.{BaseEntity}
use converse_os.Auth.Credentials.{
  UserCredentials, create, record_successful_login, record_failed_login, is_locked,
}
use converse_os.Auth.Credentials.Lockout.{failures, lockout_exact, Action, fail, history}

abbrev entity : BaseEntity
entity = record { id = 1; created_at = 0; updated_at = 0; is_deleted = false; deleted_at = none }

abbrev account : UserCredentials
account = create entity 7 "a@b.co" (some "hash") true

lock_run :
    (is_locked 11 (failures 5 15 (7 ∷ 8 ∷ 9 ∷ 10 ∷ []) account) ≡ false)
    × (is_locked 11 (failures 5 15 (7 ∷ 8 ∷ 9 ∷ 10 ∷ 11 ∷ []) account) ≡ true)
    × (is_locked 911 (failures 5 15 (7 ∷ 8 ∷ 9 ∷ 10 ∷ 11 ∷ []) account) ≡ false)
    × (is_locked 912 (failures 5 15 (7 ∷ 8 ∷ 9 ∷ 10 ∷ 11 ∷ 912 ∷ []) account) ≡ true)
unfolding create is_locked record_failed_login
lock_run = (refl, refl, refl, refl)

lockout_exact_example :
    is_locked 20 (
      record_failed_login 5 15 11 11
        (failures 5 15 (7 ∷ 8 ∷ []) (record_successful_login 5 6 account)))
    ≡ leb 5 3 && ltb 20 911
lockout_exact_example = lockout_exact 5 15 (7 ∷ 8 ∷ []) 11 5 6 20 account

abbrev five : List Action
five = fail 7 7 ∷ fail 8 8 ∷ fail 9 9 ∷ fail 10 10 ∷ fail 11 11 ∷ []

five_lock : is_locked 12 (history five account) ≡ true
unfolding create is_locked record_failed_login
five_lock = refl

abbrev locked : UserCredentials
locked = record {
  root = record { entity = entity; domain_events = [] };
  user_id = 7;
  email = "a@b.co";
  password_hash = none;
  is_active = true;
  is_email_verified = false;
  last_login_at = none;
  failed_login_attempts = 5;
  locked_until = some 911;
}
