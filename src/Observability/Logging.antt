-- ===== src/Observability/Logging.antt =====
-- observability/logging.py: `add_context_vars`. The configuration of structlog and of the standard
-- logging is not modelled.
pub mod Lines
mod Tests
use converse_os.Prelude.{ℕ, String, Option, none, some, ◌==◌, string_eq, if◌then◌else◌}
use converse_os.Prelude.Dict.{Dict, insert}
use converse_os.Domain.Value.{Value, str}
use converse_os.Security.TenantContext.{TenantContext}

-- `if value: event_dict[key] = value`
unfoldable pub add_text : String → Option String → Dict String Value → Dict String Value
add_text key none event_dict = event_dict
add_text key (some text) event_dict =
    if text == "" then event_dict else insert key (str text) event_dict

-- `if id: event_dict[key] = str(id)`: an identifier is never false
unfoldable pub add_id : (ℕ → String) → String → Option ℕ → Dict String Value → Dict String Value
add_id str_uuid key none event_dict = event_dict
add_id str_uuid key (some id) event_dict = insert key (str (str_uuid id)) event_dict

unfoldable pub add_context_vars :
    (ℕ → String) → TenantContext → Dict String Value → Dict String Value
add_context_vars str_uuid ctx event_dict = add_id str_uuid "user_id" ctx.user_id (
    add_id str_uuid "tenant_id" ctx.tenant_id
      (add_text "correlation_id" ctx.correlation_id event_dict))
