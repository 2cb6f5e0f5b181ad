-- ===== src/Security/Rbac/Equality.antt =====
-- `Permission(str, Enum)`: two members are equal when their values are.
use converse_os.Prelude.{
  String, ◌≡◌, refl, ap, ◌↔◌, Option, none, some, List, [], ◌∷◌, ◌==◌, true, Eq, string_eq, ==_iff,
  if◌then◌else◌,
}
use converse_os.Security.Rbac.Table.{Permission, org_read, value, all_permissions}

-- the member with a value: `Permission(v)`
find_value : List Permission → String → Option Permission
find_value [] v = none
find_value (p ∷ ps) v = if value p == v then some p else find_value ps v

find_value-value : (p : Permission) → find_value all_permissions (value p) ≡ some p
unfolding find_value value all_permissions
find_value-value org_read = refl
find_value-value _ = refl

-- No two members share a value, so none is an alias of another.
pub value-injective : (p q : Permission) → value p ≡ value q → p ≡ q
value-injective p q h = cc (find_value-value p, find_value-value q, h)

pub permission_beq_iff : (p q : Permission) → ((value p == value q) ≡ true) ↔ (p ≡ q)
permission_beq_iff p q = (
  λ h. value-injective p q ((==_iff (value p) (value q)).0 h),
  λ h. (==_iff (value p) (value q)).1 (ap value h),
)

instance abbrev pub permission_eq : Eq Permission
permission_eq = record { equal = λ p q. value p == value q; equal_iff = permission_beq_iff }
