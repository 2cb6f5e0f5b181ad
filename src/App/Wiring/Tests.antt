-- ===== src/App/Wiring/Tests.antt =====
-- A handler that pairs its unit with its repository is not made.
use converse_os.Prelude.{ℕ, ◌≡◌, refl, ok, raise}
use converse_os.Domain.Exceptions.{runtime_error}
use converse_os.Infrastructure.UnitOfWork.{Uow}
use converse_os.App.Wiring.{make_uow, session_of, get_uow, get_repo, make_command_handler}

abbrev pair : Uow ℕ ℕ → ℕ → Uow ℕ ℕ × ℕ
pair u repo = (u, repo)

wiring_run :
    make_command_handler pair (λ n. n) (ok 3) 4
    ≡ raise (runtime_error "UnitOfWork not started. Use 'async with uow:'")
unfolding make_command_handler get_uow get_repo make_uow session_of
wiring_run = refl
