-- ===== src/Audit/Log.antt =====
-- domain/entities/audit_log.py: `AuditLog`.
use converse_os.Prelude.{ℕ, String, Option, none, some, []}
use converse_os.Prelude.Dict.{Dict}
use converse_os.Domain.Value.{Value}
use converse_os.Domain.Entity.{BaseEntity, new_entity}

pub record AuditLog : Type 0 where
  pub entity : BaseEntity
  pub tenant_id : ℕ
  pub user_id : Option ℕ
  pub action : String
  pub resource_type : String
  pub resource_id : Option String
  pub details : Dict String Value
  pub ip_address : Option String

-- `create`, with a new identifier, the clock for `created_at`, and that of the default of
-- `updated_at`
unfoldable pub create :
    ℕ
    → ℕ
    → ℕ
    → ℕ
    → String
    → String
    → Option ℕ
    → Option String
    → Option (Dict String Value)
    → Option String
    → AuditLog
unfolding new_entity
create id now updated tenant_id action resource_type user_id resource_id details ip_address =
    record {
      entity = new_entity id now updated;
      tenant_id = tenant_id;
      user_id = user_id;
      action = action;
      resource_type = resource_type;
      resource_id = resource_id;
      details = elim details [ none ↦ [] | some d ↦ d ];
      ip_address = ip_address;
    }
