-- ===== src/Security/Rbac/Tests.antt =====
-- Runs of the policy engine, and instances of its theorems.
use converse_os.Prelude.{
  ◌≡◌, refl, Option, some, [], ◌∷◌, true, false, Any, Result, ok, ℕ, ◌+◌, ◌⊎◌, ◌↔◌, contains,
  all_in,
}
use converse_os.Domain.Exceptions.{Exn}
use converse_os.Security.Rbac.Table.{
  agent_create, agent_deploy, agent_read, analyst, value, role_value, role_of_name,
  role_permissions,
}
use converse_os.Security.Rbac.Engine.{
  has_permission, has_any_permission, has_all_permissions, CurrentUser, require_permission,
}
use converse_os.Security.Rbac.Grants.{IsGrantedBy, has_permission_iff}
use converse_os.Security.Rbac.Checks.{may_call, Refused, require_permission-guards}

engine_runs :
    (has_permission ("viewer" ∷ "OWNER" ∷ []) agent_create ≡ false)
    × (has_permission ("viewer" ∷ "developer" ∷ []) agent_create ≡ true)
    × (has_any_permission ("developer" ∷ []) (agent_deploy ∷ agent_create ∷ []) ≡ true)
    × (has_all_permissions ("developer" ∷ []) (agent_deploy ∷ agent_create ∷ []) ≡ false)
unfolding has_permission contains role_of_name role_permissions value has_any_permission
    has_all_permissions all_in
engine_runs = (refl, refl, refl, refl)

has_permission_iff_example :
    (has_permission ("viewer" ∷ "OWNER" ∷ []) agent_read ≡ true)
    ↔ Any (IsGrantedBy agent_read) ("viewer" ∷ "OWNER" ∷ [])
has_permission_iff_example = has_permission_iff ("viewer" ∷ "OWNER" ∷ []) agent_read

analyst_reads : has_permission (role_value analyst ∷ []) agent_read ≡ true
unfolding has_permission contains role_of_name role_value role_permissions value
analyst_reads = refl

-- an endpoint that counts its calls
abbrev count_call : ℕ → Result Exn ℕ × ℕ
count_call n = (ok n, n + 1)

abbrev reader : Option CurrentUser
reader = some (record { roles = some ("viewer" ∷ []) })

require_permission-guards_example :
    (may_call reader agent_create ≡ true)
      × (require_permission agent_create "agent" count_call reader 7 ≡ count_call 7)
    ⊎ (may_call reader agent_create ≡ false)
      × Refused 7 (require_permission agent_create "agent" count_call reader 7)
require_permission-guards_example =
    require_permission-guards agent_create "agent" count_call reader 7
