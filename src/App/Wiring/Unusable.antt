-- ===== src/App/Wiring/Unusable.antt =====
-- What the factories of the command handlers make.
use converse_os.Prelude.{◌≡◌, refl, Result, ok, raise}
use converse_os.Domain.Exceptions.{Exn, runtime_error}
use converse_os.Infrastructure.UnitOfWork.{Uow}
use converse_os.App.Wiring.{make_uow, session_of, get_uow, get_repo, make_command_handler}

-- No factory of a command handler makes one: it raises, since the repository is made on the session of
-- a unit that is not entered yet, whatever the handler, the repository and the database are.
pub make_command_handler_raises :
    {D B R H : Type 0} (make_handler : Uow D B → R → H) (make_repo : D → R)
    (session_factory : Result Exn D) (event_bus : B)
    → (e : Exn) × (make_command_handler make_handler make_repo session_factory event_bus ≡ raise e)
unfolding make_command_handler get_uow get_repo make_uow session_of
make_command_handler_raises make_handler make_repo (raise e) event_bus = (e, refl)
make_command_handler_raises make_handler make_repo (ok db) event_bus =
    (runtime_error "UnitOfWork not started. Use 'async with uow:'", refl)
