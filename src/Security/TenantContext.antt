-- ===== src/Security/TenantContext.antt =====
-- security/tenant_context.py: the context variables of a request, as one record that is passed on.
use converse_os.Prelude.{ℕ, String, List, [], ◌∷◌, Option, none, some, Result, ok, raise}
use converse_os.Prelude.Dict.{Dict}
use converse_os.Domain.Value.{Value, null, str, list, strs}
use converse_os.Domain.Exceptions.{Exn, runtime_error}

pub record TenantContext : Type 0 where
  pub tenant_id : Option ℕ
  pub user_id : Option ℕ
  pub correlation_id : Option String
  pub roles : List String

unfoldable pub set_tenant_id : Option ℕ → TenantContext → TenantContext
set_tenant_id tenant_id ctx = record ctx { tenant_id = tenant_id }

unfoldable pub set_user_id : Option ℕ → TenantContext → TenantContext
set_user_id user_id ctx = record ctx { user_id = user_id }

unfoldable pub set_correlation_id : Option String → TenantContext → TenantContext
set_correlation_id correlation_id ctx = record ctx { correlation_id = correlation_id }

unfoldable pub set_roles : List String → TenantContext → TenantContext
set_roles roles ctx = record ctx { roles = roles }

-- `clear`: the values that the variables have by default
unfoldable pub clear : TenantContext → TenantContext
clear ctx = record { tenant_id = none; user_id = none; correlation_id = none; roles = [] }

unfoldable pub get_tenant_id_required : TenantContext → Result Exn ℕ
get_tenant_id_required ctx = elim ctx.tenant_id [
  | none ↦ raise (runtime_error "Tenant context not set. Ensure tenant middleware is configured.")
  | some id ↦ ok id
]

unfoldable pub get_user_id_required : TenantContext → Result Exn ℕ
get_user_id_required ctx = elim ctx.user_id [
  | none ↦ raise (runtime_error "User context not set. Ensure auth middleware is configured.")
  | some id ↦ ok id
]

abbrev opt_str : Option String → Value
opt_str none = null
opt_str (some s) = str s

-- `to_dict`; `str` of an identifier is a parameter
unfoldable pub to_dict : (ℕ → String) → TenantContext → Dict String Value
to_dict str_uuid ctx =
    ("tenant_id", elim ctx.tenant_id [ none ↦ null | some id ↦ str (str_uuid id) ])
    ∷ ("user_id", elim ctx.user_id [ none ↦ null | some id ↦ str (str_uuid id) ])
    ∷ ("correlation_id", opt_str ctx.correlation_id)
    ∷ ("roles", list (strs ctx.roles))
    ∷ []

pub record RequestContext : Type 0 where
  pub tenant_id : Option ℕ
  pub user_id : Option ℕ
  pub correlation_id : Option String
  pub roles : List String
  pub ip_address : Option String
  pub user_agent : Option String

unfoldable pub from_context : TenantContext → RequestContext
from_context ctx = record {
  tenant_id = ctx.tenant_id;
  user_id = ctx.user_id;
  correlation_id = ctx.correlation_id;
  roles = ctx.roles;
  ip_address = none;
  user_agent = none;
}
