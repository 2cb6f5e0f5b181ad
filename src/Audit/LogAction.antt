-- ===== src/Audit/LogAction.antt =====
-- application/commands/log_action.py: `LogActionCommandHandler.handle`; dto/audit_dto.py;
-- infrastructure/persistence/audit_repo_impl.py: `SqlAuditRepository`.
pub mod Unstored
mod Tests
use converse_os.Prelude.{ℕ, String, Option, none, some, Result, ok}
use converse_os.Prelude.Dict.{Dict}
use converse_os.Domain.Value.{Value}
use converse_os.Domain.Exceptions.{Exn}
use converse_os.Infrastructure.UnitOfWork.{Sessions}
use converse_os.Infrastructure.Rows.{Table}
use converse_os.Application.Commands.{Kernel, Step, on_session, lift, ◌then◌, async_with}
use converse_os.Audit.Log.{AuditLog, create}

pub record AuditLogModel : Type 0 where
  pub tenant_id : ℕ
  pub user_id : Option ℕ
  pub action : String
  pub resource_type : String
  pub resource_id : Option String
  pub details : Dict String Value
  pub ip_address : Option String
  pub created_at : ℕ

unfoldable pub log_model : AuditLog → AuditLogModel
log_model log = record {
  tenant_id = log.tenant_id;
  user_id = log.user_id;
  action = log.action;
  resource_type = log.resource_type;
  resource_id = log.resource_id;
  details = log.details;
  ip_address = log.ip_address;
  created_at = log.entity.created_at;
}

-- `save`: the row is added and flushed
unfoldable pub save_log :
    (table : Table AuditLogModel) → AuditLog → table.S → Result Exn (Unit {0}) × table.S
unfolding log_model
save_log table log s = table.flush (table.put log.entity.id (log_model log) s)

pub record LogActionCommand : Type 0 where
  pub tenant_id : ℕ
  pub action : String
  pub resource_type : String
  pub user_id : Option ℕ
  pub resource_id : Option String
  pub details : Option (Dict String Value)
  pub ip_address : Option String

pub record AuditLogResponse : Type 0 where
  pub id : String
  pub tenant_id : String
  pub user_id : Option String
  pub action : String
  pub resource_type : String
  pub resource_id : Option String
  pub details : Dict String Value
  pub ip_address : Option String
  pub created_at : ℕ

unfoldable pub log_response : (ℕ → String) → AuditLog → AuditLogResponse
log_response str_uuid log = record {
  id = str_uuid log.entity.id;
  tenant_id = str_uuid log.tenant_id;
  user_id = elim log.user_id [ none ↦ none | some id ↦ some (str_uuid id) ];
  action = log.action;
  resource_type = log.resource_type;
  resource_id = log.resource_id;
  details = log.details;
  ip_address = log.ip_address;
  created_at = log.entity.created_at;
}

-- a new identifier, and two readings of the clock
pub record Fresh : Type 0 where
  pub id : ℕ
  pub now : ℕ
  pub updated : ℕ

unfoldable pub new_log : Fresh → LogActionCommand → AuditLog
unfolding create
new_log fresh command =
    create fresh.id fresh.now fresh.updated command.tenant_id command.action command.resource_type
      command.user_id command.resource_id command.details command.ip_address

module _ {D B : Type 0} (sessions : Sessions D) (kernel : Kernel AuditLog AuditLogResponse D B)
    (save : AuditLog → D → Result Exn (Unit {0}) × D) where
  -- `handle`
  unfoldable pub log_action : Fresh → LogActionCommand → Step D B kernel.Answer
  log_action fresh command =
      let log = new_log fresh command in
      async_with sessions (
        on_session (save log) then λ _.
        lift (ok (kernel.result_ok (log_response kernel.str_uuid log))))
