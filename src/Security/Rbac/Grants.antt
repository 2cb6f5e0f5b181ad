-- ===== src/Security/Rbac/Grants.antt =====
-- Which permissions a list of role names grants.
use converse_os.Prelude.{
  String, ◌≡◌, refl, ap, ◌∙◌, ◌↔◌, Option, none, some, List, [], ◌∷◌, Bool, true, false, ◌||◌,
  ==_iff, string_eq, Bool-cases, inl, inr, Any, here, there, contains, if◌then◌else◌, arith,
}
use converse_os.Security.Rbac.Table.{
  Permission, Role, viewer, role_value, role_of_name, role_permissions,
}
use converse_os.Security.Rbac.Equality.{permission_eq, permission_beq_iff}
use converse_os.Security.Rbac.Engine.{update_set, add_role, collect, has_permission}

-- the permission stands in the table row of the role with this name
abbrev pub row_has : Option Role → Permission → Bool
row_has none p = false
row_has (some role) p = contains p (role_permissions role)

abbrev pub grants : String → Permission → Bool
grants name p = row_has (role_of_name name) p

abbrev pub any_grants : List String → Permission → Bool
any_grants [] p = false
any_grants (name ∷ roles) p = grants name p || any_grants roles p

contains-update_set :
    (q : Permission) (s t : List Permission)
    → contains q (update_set s t) ≡ contains q s || contains q t
unfolding contains update_set
contains-update_set q s [] = ground arith
contains-update_set q s (p ∷ t) =
    ground
      (arith, contains-update_set q (if contains p s then s else p ∷ s) t, permission_beq_iff q p)

contains-add_role :
    (q : Permission) (s : List Permission) (name : String)
    → contains q (add_role s name) ≡ contains q s || grants name q
unfolding add_role
contains-add_role q s name = go (role_of_name name)
  where
    go :
        (o : Option Role)
        → contains q (elim o [ none ↦ s | some role ↦ update_set s (role_permissions role) ])
          ≡ contains q s || row_has o q
    go none = ground arith
    go (some role) = contains-update_set q s (role_permissions role)

contains-collect :
    (q : Permission) (s : List Permission) (roles : List String)
    → contains q (collect s roles) ≡ contains q s || any_grants roles q
unfolding collect
contains-collect q s [] = ground arith
contains-collect q s (name ∷ roles) =
    ground (arith, contains-collect q (add_role s name) roles, contains-add_role q s name)

pub has_permission-eq-any_grants :
    (roles : List String) (p : Permission) → has_permission roles p ≡ any_grants roles p
unfolding has_permission contains
has_permission-eq-any_grants roles p = contains-collect p [] roles

pub role_of_name-role_value : (r : Role) → role_of_name (role_value r) ≡ some r
unfolding role_of_name role_value
role_of_name-role_value viewer = refl
role_of_name-role_value _ = refl

pub role_of_name_sound :
    (name : String) (r : Role) → role_of_name name ≡ some r → name ≡ role_value r
unfolding role_of_name role_value
role_of_name_sound name r h = ground (
  arith,
  ==_iff name "platform_admin",
  ==_iff name "org_owner",
  ==_iff name "org_admin",
  ==_iff name "project_manager",
  ==_iff name "developer",
  ==_iff name "analyst",
  ==_iff name "viewer",
)

-- `name` is the value of a role whose row in the table has `p`.
abbrev pub IsGrantedBy : Permission → String → Type 0
IsGrantedBy p name =
    (role : Role) × (name ≡ role_value role) × (contains p (role_permissions role) ≡ true)

IsGrantedBy-of_grants : (name : String) (p : Permission) → grants name p ≡ true → IsGrantedBy p name
IsGrantedBy-of_grants name p h = go (role_of_name name) refl h
  where
    go : (o : Option Role) → role_of_name name ≡ o → row_has o p ≡ true → IsGrantedBy p name
    go none e k = cc
    go (some role) e k = (role, role_of_name_sound name role e, k)

grants_of_IsGrantedBy : (name : String) (p : Permission) → IsGrantedBy p name → grants name p ≡ true
grants_of_IsGrantedBy name p (role, e, h) =
    let known : role_of_name name ≡ some role = ap role_of_name e ∙ role_of_name-role_value role in
    rw (known, row_has) h

Any-of_any_grants :
    (roles : List String) (p : Permission) → any_grants roles p ≡ true → Any (IsGrantedBy p) roles
Any-of_any_grants [] p h = cc
Any-of_any_grants (name ∷ roles) p h = elim (Bool-cases (grants name p)) [
  | inl yes_here ↦ here (IsGrantedBy-of_grants name p yes_here)
  | inr no_here ↦ there (Any-of_any_grants roles p (rw no_here at h))
]

any_grants_of_Any :
    (roles : List String) (p : Permission) → Any (IsGrantedBy p) roles → any_grants roles p ≡ true
any_grants_of_Any [] p a = elim a [ ]
any_grants_of_Any (name ∷ roles) p (here g) = rw (grants_of_IsGrantedBy name p g)
any_grants_of_Any (name ∷ roles) p (there a) = ground (arith, any_grants_of_Any roles p a)

-- A list of role names has a permission exactly when some name in the list is the value of a role
-- whose row of ROLE_PERMISSIONS contains the permission; unknown names add nothing.
pub has_permission_iff :
    (roles : List String) (p : Permission)
    → (has_permission roles p ≡ true) ↔ Any (IsGrantedBy p) roles
has_permission_iff roles p = (
  λ h. Any-of_any_grants roles p (rw has_permission-eq-any_grants at h),
  λ a. rw has_permission-eq-any_grants (any_grants_of_Any roles p a),
)
