-- ===== src/Middleware/Context/Tests.antt =====
-- The theorems at concrete requests.
use converse_os.Prelude.{
  ℕ, suc, ◌≡◌, refl, String, [], ◌∷◌, Option, none, some, ◌==◌, string_eq, if◌then◌else◌, Result,
  ok,
}
use converse_os.Domain.Exceptions.{Exn}
use converse_os.Security.TenantContext.{TenantContext}
use converse_os.Domain.Value.{null}
use converse_os.Application.Dto.{respond_ok}
use converse_os.Middleware.Context.{Request, Served, CallNext, parse_roles}

parse_roles_test : parse_roles " org_admin , ,viewer" ≡ "org_admin" ∷ "viewer" ∷ []
unfolding parse_roles
parse_roles_test = refl

abbrev parse_uuid : String → Option ℕ
parse_uuid s = if s == "u-1" then some 1 else none

abbrev request : Request
request = record {
  path = "/api/v1/agents";
  method = "POST";
  client_host = some "10.0.0.1";
  correlation_id = some "c-9";
  tenant_id = none;
  user_id = some "u-1";
  roles = some "org_admin, viewer";
  current_user = none;
}

abbrev empty_context : TenantContext
empty_context = record { tenant_id = none; user_id = none; correlation_id = none; roles = [] }

abbrev answer : CallNext (Served ℕ)
answer r ctx s =
    (ok (record { status_code = 200; headers = []; content = respond_ok null [] }), suc s)

abbrev count_up : ℕ → Result Exn ℕ × ℕ
count_up n = (ok n, suc n)
