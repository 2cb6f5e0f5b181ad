-- ===== src/Security/Rbac/Engine.antt =====
-- `PolicyEngine`, and the wrapper that `require_permission` puts round an endpoint. A set is a list
-- without repetition; a log line changes nothing that the engine reads.
use converse_os.Prelude.{
  String, Option, none, some, List, [], ◌∷◌, Bool, true, false, not, if◌then◌else◌, Result, ok,
  raise, contains, all_in,
}
use converse_os.Domain.Value.{str, list, strs}
use converse_os.Domain.Exceptions.{Exn, domain, DomainException, make_authorization_error}
use converse_os.Security.Rbac.Table.{Permission, value, role_of_name, role_permissions}
use converse_os.Security.Rbac.Equality.{permission_eq}

-- `permissions.update(granted)`
unfoldable pub update_set : List Permission → List Permission → List Permission
update_set permissions [] = permissions
update_set permissions (p ∷ granted) =
    update_set (if contains p permissions then permissions else p ∷ permissions) granted

-- the body of the loop over role names; an unknown name is logged and passed over
unfoldable pub add_role : List Permission → String → List Permission
add_role permissions role_name = elim (role_of_name role_name) [
  | none ↦ permissions
  | some role ↦ update_set permissions (role_permissions role)
]

unfoldable pub collect : List Permission → List String → List Permission
collect permissions [] = permissions
collect permissions (role_name ∷ roles) = collect (add_role permissions role_name) roles

unfoldable pub get_permissions_for_roles : List String → List Permission
unfolding collect add_role update_set
get_permissions_for_roles roles = collect [] roles

unfoldable pub has_permission : List String → Permission → Bool
unfolding get_permissions_for_roles
has_permission roles required = contains required (get_permissions_for_roles roles)

-- the exceptions that `check_permission` and the wrapper raise
unfoldable pub denied : List String → Permission → String → DomainException
unfolding make_authorization_error
denied roles required resource =
    make_authorization_error (value required) resource
      (("roles", list (strs roles)) ∷ ("required_permission", str (value required)) ∷ [])

unfoldable pub no_user : Permission → String → DomainException
unfolding make_authorization_error
no_user permission resource =
    make_authorization_error (value permission) resource
      (("reason", str "No authenticated user") ∷ [])

unfoldable pub check_permission : List String → Permission → String → Result Exn (Unit {0})
check_permission roles required resource =
    if not (has_permission roles required)
    then raise (domain (denied roles required resource))
    else ok tt

-- `permissions.intersection(required)`
unfoldable pub intersection : List Permission → List Permission → List Permission
intersection permissions [] = []
intersection permissions (p ∷ required) =
    let rest = intersection permissions required in
    if contains p permissions then p ∷ rest else rest

-- `bool(s)` of a set
abbrev pub non_empty : List Permission → Bool
non_empty [] = false
non_empty (p ∷ ps) = true

unfoldable pub has_any_permission : List String → List Permission → Bool
unfolding intersection
has_any_permission roles required =
    non_empty (intersection (get_permissions_for_roles roles) required)

unfoldable pub has_all_permissions : List String → List Permission → Bool
has_all_permissions roles required = all_in (get_permissions_for_roles roles) required

-- The `current_user` keyword argument; its `roles` attribute may be missing.
pub record CurrentUser : Type 0 where
  pub roles : Option (List String)

-- `getattr(current_user, "roles", [])`
abbrev pub roles_of : CurrentUser → List String
roles_of user = elim user.roles [ none ↦ [] | some roles ↦ roles ]

-- `wrapper`: the endpoint is an action on the state `S` of the service.
module _ {S A : Type 0} where
  unfoldable pub require_permission :
      Permission → String → (S → Result Exn A × S) → Option CurrentUser → S → Result Exn A × S
  require_permission permission resource func none s =
      (raise (domain (no_user permission resource)), s)
  require_permission permission resource func (some user) s =
      elim (check_permission (roles_of user) permission resource) [
        | raise e ↦ (raise e, s)
        | ok _ ↦ func s
      ]
