-- ===== src/Auth/Register/Tests.antt =====
-- A registration on a database in memory.
use converse_os.Prelude.{ℕ, String, ◌≡◌, [], false, ◌==◌, string_eq, ok}
use converse_os.Prelude.Dict.{Dict}
use converse_os.Domain.Entity.{new_entity}
use converse_os.Infrastructure.UnitOfWork.{Uow}
use converse_os.Application.Commands.Memory.{
  Store, memory_sessions, content, memory_isolates, memory_repository, memory_works, memory_kernel,
  memory_kernel_works,
}
use converse_os.Auth.Credentials.{UserCredentials}
use converse_os.Auth.Password.{CryptContext}
use converse_os.Auth.Register.{RegisterCommandHandler, RegisterCommand, Fresh, register}
use converse_os.Auth.Register.Unstored.{register-StoresNothing}

abbrev Accounts : Type 0
Accounts = Dict String UserCredentials

abbrev crypt : CryptContext
crypt = record { Salt = ℕ; hash = λ salt raw. raw; verify = λ raw value. raw == value }

abbrev registration : RegisterCommandHandler (Store Accounts) (Unit {0})
registration = record {
  sessions = memory_sessions;
  kernel = memory_kernel;
  email_of = λ text. ok text;
  pwd_context = crypt;
  repo = memory_repository (λ c. c.email);
}

abbrev unit : Uow (Store Accounts) (Unit {0})
unit = record {
  has_session = false;
  pending_events = [];
  db = record { content = []; work = [] };
  bus = tt;
}

abbrev new_user : RegisterCommand
new_user = record { email = "a@b.co"; password = "correct horse" }

abbrev fresh : Fresh
fresh = record { user_id = 7; entity = new_entity 1 0 0; event_id = 98; occurred = 0 }

register-StoresNothing_example : (register registration 0 new_user fresh unit).1.db.content ≡ []
register-StoresNothing_example =
    register-StoresNothing registration content (memory_works (λ c. c.email))
      (memory_kernel_works ℕ content) memory_isolates 0 new_user fresh unit
