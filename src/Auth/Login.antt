-- ===== src/Auth/Login.antt =====
-- application/commands/login.py: `LoginCommandHandler.handle`. The constructor of `Email`, the
-- `JWTHandler` of a module that is not in the repository, and passlib are parameters. An identifier is
-- a number.
pub mod Unstored
pub mod Sql
mod Tests
use converse_os.Prelude.{
  ℕ, String, ◌*◌, Option, none, some, List, [], ◌∷◌, Bool, Result, ok, raise, if◌then◌else◌, not,
}
use converse_os.Prelude.Dict.{Dict}
use converse_os.Domain.Value.{num, nullable}
use converse_os.Domain.Events.{DomainEvent}
use converse_os.Domain.Exceptions.{Exn}
use converse_os.Infrastructure.UnitOfWork.{Sessions}
use converse_os.Application.Commands.{
  Repository, Kernel, refused, invalid_command, new_event, Step, on_session, lift, ◌then◌,
  save_with_event, async_with,
}
use converse_os.Auth.Credentials.{
  UserCredentials, record_successful_login, record_failed_login, is_locked,
}
use converse_os.Auth.Password.{CryptContext, verify_hash}

pub record LoginCommand : Type 0 where
  pub email : String
  pub password : String
  pub ip_address : Option String
  pub user_agent : Option String

pub record TokenResponse : Type 0 where
  pub access_token : String
  pub refresh_token : String
  pub token_type : String
  pub expires_in : ℕ

-- the two settings that the handler reads
pub record TokenSettings : Type 0 where
  pub access_minutes : ℕ
  pub refresh_days : ℕ

-- `JWTHandler`, with the arguments of the two calls in their order
pub record TokenSource : Type 0 where
  pub create_access_token : ℕ → Option ℕ → List String → ℕ → Result Exn String
  pub create_refresh_token : ℕ → ℕ → Result Exn String

-- What one call takes from outside: the readings of the clock in their order, and the identifier of
-- the event.
pub record Moment : Type 0 where
  pub checked : ℕ
  pub recorded : ℕ
  pub updated : ℕ
  pub rechecked : ℕ
  pub occurred : ℕ
  pub event_id : ℕ

unfoldable pub authenticated_event : LoginCommand → Moment → UserCredentials → DomainEvent
unfolding new_event
authenticated_event command at c =
    new_event "auth_service.domain.events.auth_events.UserAuthenticatedEvent" at.event_id
      at.occurred
      (("user_id", num c.user_id)
        ∷ ("ip_address", nullable command.ip_address)
        ∷ ("user_agent", nullable command.user_agent)
        ∷ [])

unfoldable pub locked_event : Moment → UserCredentials → DomainEvent
unfolding new_event
locked_event at c =
    new_event "auth_service.domain.events.auth_events.UserAccountLockedEvent" at.event_id
      at.occurred (("user_id", num c.user_id) ∷ ("lock_duration_minutes", num 15) ∷ [])

-- the handler, with what its code takes from outside; `email_of` is the call of `Email`, which with a
-- positional argument, as the code has it, raises a TypeError, and is open here to return too
pub record LoginCommandHandler (D B : Type 0) : Type 1 where
  pub sessions : Sessions D
  pub kernel : Kernel UserCredentials TokenResponse D B
  pub email_of : String → Result Exn String
  pub pwd_context : CryptContext
  pub repo : Repository String UserCredentials D
  pub jwt_handler : TokenSource
  pub settings : TokenSettings

module _ {D B : Type 0} (handler : LoginCommandHandler D B) where
  open handler use {sessions, kernel, email_of, pwd_context, repo, jwt_handler, settings}

  -- the last part: the tokens and the answer
  unfoldable pub issue_tokens : UserCredentials → Step D B kernel.Answer
  issue_tokens c =
      lift (jwt_handler.create_access_token c.user_id none [] settings.access_minutes)
      then λ access_token.
          lift (jwt_handler.create_refresh_token c.user_id settings.refresh_days)
          then λ refresh_token. lift (
              ok (
                kernel.result_ok (record {
                  access_token = access_token;
                  refresh_token = refresh_token;
                  token_type = "Bearer";
                  expires_in = settings.access_minutes * 60;
                })))

  -- the block of `if not credentials.password_hash.verify(…)`
  unfoldable pub fail_login : Moment → UserCredentials → Step D B kernel.Answer
  fail_login at credentials =
      let c = record_failed_login 5 15 at.recorded at.updated credentials in
      on_session (repo.save c) then λ _. kernel.register_aggregate c then λ c'.
      lift (
        if is_locked at.rechecked c'
        then kernel.add_domain_event (locked_event at c') c'
        else ok c')
      then λ _. lift (raise refused)

  -- from `record_successful_login` on
  unfoldable pub succeed_login : LoginCommand → Moment → UserCredentials → Step D B kernel.Answer
  succeed_login command at credentials =
      let c = record_successful_login at.recorded at.updated credentials in
      save_with_event kernel repo.save (authenticated_event command at c) c then issue_tokens

  -- the guards on an account with this hash, and the password
  unfoldable pub check_account :
      LoginCommand → Moment → UserCredentials → Option String → Step D B kernel.Answer
  check_account command at c none = lift (raise refused)
  check_account command at c (some hash) =
      if not c.is_active
      then lift (raise refused)
      else if is_locked at.checked c
      then lift (raise refused)
      else if verify_hash pwd_context hash command.password
      then succeed_login command at c
      else fail_login at c

  -- the block, after the look-up
  unfoldable pub check_login :
      LoginCommand → Moment → Option UserCredentials → Step D B kernel.Answer
  check_login command at none = lift (raise refused)
  check_login command at (some c) = check_account command at c c.password_hash

  -- what follows the construction of the address
  unfoldable pub login_with : LoginCommand → Moment → Result Exn String → Step D B kernel.Answer
  login_with command at (raise e) = lift (raise (invalid_command e))
  login_with command at (ok email) =
      async_with sessions (on_session (repo.find email) then check_login command at)

  -- `handle`
  unfoldable pub login : LoginCommand → Moment → Step D B kernel.Answer
  login command at = login_with command at (email_of command.email)
