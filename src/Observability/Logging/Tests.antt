-- ===== src/Observability/Logging/Tests.antt =====
-- A line that a request of a tenant writes.
use converse_os.Prelude.{◌≡◌, refl, none, some, [], ◌∷◌, string_eq}
use converse_os.Prelude.Dict.{insert}
use converse_os.Prelude.Decimal.{decimal}
use converse_os.Domain.Value.{str}
use converse_os.Security.TenantContext.{TenantContext}
use converse_os.Observability.Logging.{add_text, add_id, add_context_vars}

abbrev ctx : TenantContext
ctx = record { tenant_id = some 3; user_id = none; correlation_id = some ""; roles = [] }

line_run :
    add_context_vars decimal ctx (("event", str "start") ∷ ("tenant_id", str "9") ∷ [])
    ≡ ("event", str "start") ∷ ("tenant_id", str "3") ∷ []
unfolding add_context_vars add_id add_text insert decimal
line_run = refl
