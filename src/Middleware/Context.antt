-- ===== src/Middleware/Context.antt =====
-- middleware/correlation_id.py, tenant_middleware.py and auth_middleware.py: what the headers of a
-- request put into its context. `uuid.UUID` and a new identifier are parameters; the log lines are
-- left out.
pub mod Identity
mod Tests
use converse_os.Prelude.{
  ℕ, String, List, [], ◌∷◌, Option, none, some, Bool, true, false, ◌==◌, string_eq, if◌then◌else◌,
}
use converse_os.Prelude.Dict.{Dict, insert}
use converse_os.Prelude.Split.{split}
use converse_os.Prelude.Strip.{strip}
use converse_os.Prelude.{Result, ok, raise}
use converse_os.Domain.Exceptions.{Exn}
use converse_os.Middleware.ErrorHandler.{Response}
use converse_os.Security.Rbac.Engine.{CurrentUser}
use converse_os.Security.TenantContext.{
  TenantContext, set_tenant_id, set_user_id, set_correlation_id, set_roles,
}

-- what the middlewares read of a request: its path, method and client, four headers, and `request.state.current_user`
pub record Request : Type 0 where
  pub path : String
  pub method : String
  pub client_host : Option String
  pub correlation_id : Option String
  pub tenant_id : Option String
  pub user_id : Option String
  pub roles : Option String
  pub current_user : Option CurrentUser

-- a header that is there and not empty
unfoldable pub given : Option String → Option String
given none = none
given (some s) = if s == "" then none else some s

-- `[r.strip() for r in roles_str.split(",") if r.strip()]`
unfoldable pub stripped : List String → List String
unfolding strip
stripped [] = []
stripped (r ∷ rs) = let rest = stripped rs in if strip r == "" then rest else strip r ∷ rest

unfoldable pub parse_roles : String → List String
unfolding stripped split
parse_roles roles_str = stripped (split "," roles_str)

-- what is done after the middleware, in the context that it leaves
abbrev pub CallNext : Type 0 → Type 0
CallNext R = Request → TenantContext → R

-- `correlation_id or str(uuid.uuid4())`
unfoldable pub id_of : String → Option String → String
id_of new_id none = new_id
id_of new_id (some correlation_id) = correlation_id

-- `response.headers[name] = value`; what was raised passes
unfoldable pub with_header : String → String → Result Exn Response → Result Exn Response
unfolding insert
with_header name value (ok response) =
    ok (record response { headers = insert name value response.headers })
with_header name value (raise e) = raise e

-- an awaited call acts on the state of the service
abbrev pub Served : Type 0 → Type 0
Served S = S → Result Exn Response × S

unfoldable pub correlation_dispatch :
    {S : Type 0} → String → CallNext (Served S) → Request → TenantContext → Served S
unfolding given id_of with_header set_correlation_id
correlation_dispatch new_id call_next request ctx s =
    let correlation_id = id_of new_id (given request.correlation_id) in
    let (outcome, s') = call_next request (set_correlation_id (some correlation_id) ctx) s in
    (with_header "X-Correlation-ID" correlation_id outcome, s')

-- the second part of `dispatch` of auth_middleware.py: the roles, if the header has some, and the
-- current user, if it has an identifier too
unfoldable pub with_roles :
    Option ℕ → Option String → Request → TenantContext → Request × TenantContext
unfolding parse_roles set_roles
with_roles user_id none request ctx = (request, ctx)
with_roles none (some roles_str) request ctx = (request, set_roles (parse_roles roles_str) ctx)
with_roles (some user_id) (some roles_str) request ctx =
    let roles = parse_roles roles_str in
    (record request { current_user = some (record { roles = some roles }) }, set_roles roles ctx)

unfoldable pub with_user : Option ℕ → TenantContext → TenantContext
unfolding set_user_id
with_user none ctx = ctx
with_user (some user_id) ctx = set_user_id (some user_id) ctx

unfoldable pub with_tenant : Option ℕ → TenantContext → TenantContext
unfolding set_tenant_id
with_tenant none ctx = ctx
with_tenant (some tenant_id) ctx = set_tenant_id (some tenant_id) ctx

module _ (parse_uuid : String → Option ℕ) where
  -- the identifier in a header, if it has a valid one
  unfoldable pub header_id : Option String → Option ℕ
  unfolding given
  header_id header = elim (given header) [ none ↦ none | some s ↦ parse_uuid s ]

  module _ {R : Type 0} where
    unfoldable pub tenant_dispatch : CallNext R → Request → TenantContext → R
    unfolding header_id with_tenant
    tenant_dispatch call_next request ctx =
        call_next request (with_tenant (header_id request.tenant_id) ctx)

    unfoldable pub auth_dispatch : CallNext R → Request → TenantContext → R
    unfolding header_id with_user with_roles given
    auth_dispatch call_next request ctx =
        let user_id = header_id request.user_id in
        let (request', ctx') =
          with_roles user_id (given request.roles) request (with_user user_id ctx) in
        call_next request' ctx'
