-- ===== src/Auth/Register.antt =====
-- application/commands/register.py: `RegisterCommandHandler.handle`.
pub mod Unstored
mod Tests
use converse_os.Prelude.{ℕ, String, Option, none, some, [], ◌∷◌, true, Result, ok, raise, ◌>>=◌}
use converse_os.Domain.Value.{num, str}
use converse_os.Domain.Events.{DomainEvent}
use converse_os.Domain.Exceptions.{Exn}
use converse_os.Domain.Entity.{BaseEntity}
use converse_os.Infrastructure.UnitOfWork.{Sessions}
use converse_os.Application.Commands.{
  Repository, Kernel, already_exists, invalid_command, new_event, Step, on_session, lift, ◌then◌,
  save_with_event, async_with,
}
use converse_os.Auth.Credentials.{UserCredentials, create}
use converse_os.Auth.Password.{CryptContext, create_hash}

pub record RegisterCommand : Type 0 where
  pub email : String
  pub password : String

-- the handler, with what its code takes from outside; `email_of` is the call of `Email`, which with a
-- positional argument, as the code has it, raises a TypeError, and is open here to return too
pub record RegisterCommandHandler (D B : Type 0) : Type 1 where
  pub sessions : Sessions D
  pub kernel : Kernel UserCredentials ℕ D B
  pub email_of : String → Result Exn String
  pub pwd_context : CryptContext
  pub repo : Repository String UserCredentials D

-- What one call takes from outside: `uuid.uuid4()`, the entity that the default factories make, and
-- the identifier and the time of the event.
pub record Fresh : Type 0 where
  pub user_id : ℕ
  pub entity : BaseEntity
  pub event_id : ℕ
  pub occurred : ℕ

unfoldable pub registered_event : Fresh → String → DomainEvent
unfolding new_event
registered_event fresh email =
    new_event "auth_service.domain.events.auth_events.UserRegisteredEvent" fresh.event_id
      fresh.occurred (("user_id", num fresh.user_id) ∷ ("email", str email) ∷ [])

module _ {D B : Type 0} (handler : RegisterCommandHandler D B) where
  open handler use {sessions, kernel, email_of, pwd_context, repo}

  -- the two constructions before the block
  unfoldable pub read_command : pwd_context.Salt → RegisterCommand → Result Exn (String × String)
  read_command salt command = email_of command.email >>= λ email.
      create_hash pwd_context salt command.password >>= λ hash. ok (email, hash)

  -- the block, after the look-up
  unfoldable pub add_user :
      Fresh → String → String → Option UserCredentials → Step D B kernel.Answer
  add_user fresh email hash (some existing) = lift (raise already_exists)
  add_user fresh email hash none =
      let c = create fresh.entity fresh.user_id email (some hash) true in
      save_with_event kernel repo.save (registered_event fresh email) c then λ _.
      lift (ok (kernel.result_ok fresh.user_id))

  -- what follows the two constructions
  unfoldable pub register_with : Fresh → Result Exn (String × String) → Step D B kernel.Answer
  register_with fresh (raise e) = lift (raise (invalid_command e))
  register_with fresh (ok (email, hash)) =
      async_with sessions (on_session (repo.find email) then add_user fresh email hash)

  -- `handle`
  unfoldable pub register : pwd_context.Salt → RegisterCommand → Fresh → Step D B kernel.Answer
  register salt command fresh = register_with fresh (read_command salt command)
