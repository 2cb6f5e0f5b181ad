-- ===== src/App/Wiring.antt =====
-- services/auth-service/src/auth_service/main.py: `get_uow`, `get_repo` and the factories of the command
-- handlers; infrastructure/unit_of_work.py: the constructor and `session`.
pub mod Unusable
mod Tests
use converse_os.Prelude.{◌≡◌, [], false, Result, ok, raise, ◌>>=◌, if◌then◌else◌}
use converse_os.Domain.Exceptions.{Exn, runtime_error}
use converse_os.Infrastructure.UnitOfWork.{Uow}

module _ {D B : Type 0} where
  -- `SqlAlchemyUnitOfWork(session_factory, event_bus)`
  unfoldable pub make_uow : D → B → Uow D B
  make_uow db bus = record { has_session = false; pending_events = []; db = db; bus = bus }

  -- `uow.session`
  unfoldable pub session_of : Uow D B → Result Exn D
  session_of u =
      if u.has_session
      then ok u.db
      else raise (runtime_error "UnitOfWork not started. Use 'async with uow:'")

  -- `get_uow`: what reading `db_manager.session_factory` gives is an argument
  unfoldable pub get_uow : Result Exn D → B → Result Exn (Uow D B)
  get_uow session_factory event_bus = session_factory >>= λ db. ok (make_uow db event_bus)

  -- `get_repo`, with the constructor of the repository
  unfoldable pub get_repo : {R : Type 0} → (D → R) → Uow D B → Result Exn R
  get_repo make_repo u = session_of u >>= λ session. ok (make_repo session)

  -- `lambda: Handler(uow=(uow := get_uow()), repo=get_repo(uow))`
  unfoldable pub make_command_handler :
      {R H : Type 0} → (Uow D B → R → H) → (D → R) → Result Exn D → B → Result Exn H
  make_command_handler make_handler make_repo session_factory event_bus =
      get_uow session_factory event_bus >>= λ u.
      get_repo make_repo u >>= λ repo. ok (make_handler u repo)
