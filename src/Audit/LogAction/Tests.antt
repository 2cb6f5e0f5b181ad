-- ===== src/Audit/LogAction/Tests.antt =====
-- An action that is logged on a database in memory.
use converse_os.Prelude.{ℕ, ◌≡◌, refl, none, [], false, nat_eq}
use converse_os.Prelude.Dict.{Dict}
use converse_os.Infrastructure.UnitOfWork.{Uow}
use converse_os.Application.Commands.{Repository, Kernel}
use converse_os.Application.Commands.Memory.{
  Store, memory_sessions, content, memory_isolates, memory_repository, memory_kernel,
}
use converse_os.Audit.Log.{AuditLog}
use converse_os.Audit.LogAction.{LogActionCommand, AuditLogResponse, Fresh, log_action}
use converse_os.Audit.LogAction.Unstored.{log_action-StoresNothing}

abbrev repo : Repository ℕ AuditLog (Store (Dict ℕ AuditLog))
repo = memory_repository (λ log. log.entity.id)

abbrev kernel : Kernel AuditLog AuditLogResponse (Store (Dict ℕ AuditLog)) (Unit {0})
kernel = memory_kernel

abbrev unit : Uow (Store (Dict ℕ AuditLog)) (Unit {0})
unit = record {
  has_session = false;
  pending_events = [];
  db = record { content = []; work = [] };
  bus = tt;
}

abbrev fresh : Fresh
fresh = record { id = 1; now = 5; updated = 6 }

abbrev command : LogActionCommand
command = record {
  tenant_id = 3;
  action = "delete";
  resource_type = "agent";
  user_id = none;
  resource_id = none;
  details = none;
  ip_address = none;
}

log_action-StoresNothing_example :
    (log_action memory_sessions kernel repo.save fresh command unit).1.db.content ≡ []
log_action-StoresNothing_example =
    log_action-StoresNothing memory_sessions kernel repo.save content fresh command memory_isolates
      (λ log d. refl) unit
