-- ===== src/Security/Rbac/Hierarchy.antt =====
-- What the rows of ROLE_PERMISSIONS say together: which roles extend which, and which permissions
-- are held back.
use converse_os.Prelude.{
  String, ◌≡◌, refl, Option, none, some, List, [], ◌∷◌, ◌++◌, Bool, true, false, ◌||◌, ==_iff,
  string_eq, contains, all_in, contains_of_all_in, arith,
}
use converse_os.Security.Rbac.Table.{
  Permission, org_delete, user_delete, billing_manage, admin_full_access, admin_manage_tenants,
  admin_view_metrics, Role, platform_admin, org_owner, org_admin, project_manager, developer,
  analyst, viewer, value, role_value, role_of_name, role_permissions,
}
use converse_os.Security.Rbac.Equality.{permission_eq}
use converse_os.Security.Rbac.Engine.{has_permission}
use converse_os.Security.Rbac.Grants.{
  row_has, grants, any_grants, has_permission-eq-any_grants, role_of_name-role_value,
  role_of_name_sound,
}

any_grants-append :
    (xs ys : List String) (p : Permission)
    → any_grants (xs ++ ys) p ≡ any_grants xs p || any_grants ys p
any_grants-append [] ys p = refl
any_grants-append (x ∷ xs) ys p = ground (arith, any_grants-append xs ys p)

-- Two lists of role names together have exactly the permissions that the one or the other has.
pub has_permission-append :
    (xs ys : List String) (p : Permission)
    → has_permission (xs ++ ys) p ≡ has_permission xs p || has_permission ys p
has_permission-append xs ys p = simp has_permission-eq-any_grants (any_grants-append xs ys p)

-- The order in which the roles extend one another; analysts and developers are not comparable.
pub data Inherits : Role → Role → Type 0 where
  same : (r : Role) → Inherits r r
  above_viewer : {r : Role} → Inherits analyst r → Inherits viewer r
  developer_above_viewer : {r : Role} → Inherits developer r → Inherits viewer r
  above_analyst : {r : Role} → Inherits org_admin r → Inherits analyst r
  above_developer : {r : Role} → Inherits project_manager r → Inherits developer r
  above_project_manager : {r : Role} → Inherits org_admin r → Inherits project_manager r
  above_org_admin : {r : Role} → Inherits org_owner r → Inherits org_admin r
  above_org_owner : {r : Role} → Inherits platform_admin r → Inherits org_owner r

abbrev Extends : Role → Role → Type 0
Extends lo hi = all_in (role_permissions hi) (role_permissions lo) ≡ true

rows :
    Extends viewer analyst
    × Extends viewer developer
    × Extends analyst org_admin
    × Extends developer project_manager
    × Extends project_manager org_admin
    × Extends org_admin org_owner
    × Extends org_owner platform_admin
unfolding all_in contains role_permissions value
rows = (refl, refl, refl, refl, refl, refl, refl)

-- A role that stands higher in the order holds every permission of the lower one.
row_has-Inherits :
    {lo hi : Role} (p : Permission)
    → Inherits lo hi
    → contains p (role_permissions lo) ≡ true
    → contains p (role_permissions hi) ≡ true
row_has-Inherits p (same r) h = h
row_has-Inherits p (above_viewer i) h = row_has-Inherits p i (contains_of_all_in _ _ p rows.0 h)
row_has-Inherits p (developer_above_viewer i) h =
    row_has-Inherits p i (contains_of_all_in _ _ p rows.1 h)
row_has-Inherits p (above_analyst i) h = row_has-Inherits p i (contains_of_all_in _ _ p rows.2 h)
row_has-Inherits p (above_developer i) h = row_has-Inherits p i (contains_of_all_in _ _ p rows.3 h)
row_has-Inherits p (above_project_manager i) h =
    row_has-Inherits p i (contains_of_all_in _ _ p rows.4 h)
row_has-Inherits p (above_org_admin i) h = row_has-Inherits p i (contains_of_all_in _ _ p rows.5 h)
row_has-Inherits p (above_org_owner i) h = row_has-Inherits p i (contains_of_all_in _ _ p rows.6 h)

grants-role_value :
    (r : Role) (p : Permission) → grants (role_value r) p ≡ contains p (role_permissions r)
grants-role_value r p = rw (role_of_name-role_value r, row_has)

-- Replacing a role of the list by one that stands higher takes no permission away.
pub has_permission-promote :
    {lo hi : Role} (roles : List String) (p : Permission)
    → Inherits lo hi
    → has_permission (role_value lo ∷ roles) p ≡ true
    → has_permission (role_value hi ∷ roles) p ≡ true
has_permission-promote {lo} {hi} roles p i h =
    let h' : any_grants (role_value lo ∷ roles) p ≡ true = rw has_permission-eq-any_grants at h in
    rw has_permission-eq-any_grants
      (ground (arith, grants-role_value lo p, grants-role_value hi p, row_has-Inherits p i, h'))

-- The permissions that only the listed roles hold.
pub data Reserved : Permission → List String → Type 0 where
  full_access : Reserved admin_full_access ("platform_admin" ∷ [])
  manage_tenants : Reserved admin_manage_tenants ("platform_admin" ∷ [])
  view_metrics : Reserved admin_view_metrics ("platform_admin" ∷ [])
  delete_org : Reserved org_delete ("platform_admin" ∷ "org_owner" ∷ [])
  delete_user : Reserved user_delete ("platform_admin" ∷ "org_owner" ∷ [])
  manage_billing : Reserved billing_manage ("platform_admin" ∷ "org_owner" ∷ [])

-- some name of the list is among the holders
abbrev pub overlaps : List String → List String → Bool
overlaps holders [] = false
overlaps holders (name ∷ roles) = contains name holders || overlaps holders roles

Reserved-row :
    {p : Permission} {holders : List String}
    → Reserved p holders
    → (r : Role) → contains p (role_permissions r) ≡ contains (role_value r) holders
unfolding contains role_permissions role_value value
Reserved-row full_access viewer = refl
Reserved-row full_access _ = refl
Reserved-row manage_tenants viewer = refl
Reserved-row manage_tenants _ = refl
Reserved-row view_metrics viewer = refl
Reserved-row view_metrics _ = refl
Reserved-row delete_org viewer = refl
Reserved-row delete_org _ = refl
Reserved-row delete_user viewer = refl
Reserved-row delete_user _ = refl
Reserved-row manage_billing viewer = refl
Reserved-row manage_billing _ = refl

-- every holder is a role
Reserved-known :
    {p : Permission} {holders : List String} (name : String)
    → Reserved p holders
    → role_of_name name ≡ none
    → contains name holders ≡ false
unfolding contains role_of_name
Reserved-known name full_access h = ground (arith, ==_iff name "platform_admin")
Reserved-known name manage_tenants h = ground (arith, ==_iff name "platform_admin")
Reserved-known name view_metrics h = ground (arith, ==_iff name "platform_admin")
Reserved-known name delete_org h = ground arith
Reserved-known name delete_user h = ground arith
Reserved-known name manage_billing h = ground arith

grants_of_Reserved :
    {p : Permission} {holders : List String} (name : String)
    → Reserved p holders
    → grants name p ≡ contains name holders
grants_of_Reserved {p} {holders} name res = go (role_of_name name) refl
  where
    go : (o : Option Role) → role_of_name name ≡ o → row_has o p ≡ contains name holders
    go none e = rw (Reserved-known name res e)
    go (some r) e = rw (role_of_name_sound name r e) (Reserved-row res r)

-- The platform permissions are held exactly through the role platform_admin, and deleting
-- organizations or users and managing billing exactly through platform_admin or org_owner.
pub has_permission-Reserved :
    {p : Permission} {holders : List String} (roles : List String)
    → Reserved p holders
    → has_permission roles p ≡ overlaps holders roles
has_permission-Reserved {p} {holders} roles res = rw has_permission-eq-any_grants (go roles)
  where
    go : (names : List String) → any_grants names p ≡ overlaps holders names
    go [] = refl
    go (name ∷ names) = cc (grants_of_Reserved name res, go names)
