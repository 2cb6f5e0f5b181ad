-- ===== src/Org/Organization.antt =====
-- domain/entities/organization.py: an organization and its members. Identifiers and readings of the
-- clock that the default factories make are arguments. A method returns the organization beside
-- its result, since a call that raises leaves what it has written.
pub mod Members
mod Tests
use converse_os.Prelude.{
  ℕ, suc, String, ◌≤◌, Option, none, some, List, [], ◌∷◌, ◌++◌, Bool, true, false, ◌||◌, ◌==◌,
  nat_eq, string_eq, not, leb, if◌then◌else◌, Result, ok, raise,
}
use converse_os.Prelude.Dict.{Dict, update}
use converse_os.Domain.Value.{Value}
use converse_os.Domain.Events.{DomainEvent}
use converse_os.Domain.Exceptions.{Exn, value_error}
use converse_os.Domain.Entity.{BaseEntity, AggregateRoot, new_root, touch}

pub record OrganizationMember : Type 0 where
  pub entity : BaseEntity
  pub user_id : ℕ
  pub role : String

pub record Organization : Type 0 where
  pub root : AggregateRoot DomainEvent
  pub name : String
  pub slug : String
  pub billing_plan : String
  pub is_active : Bool
  pub settings : Dict String Value
  pub members : List OrganizationMember

-- `any(m.user_id == user_id for m in members)`
unfoldable pub is_member : ℕ → List OrganizationMember → Bool
is_member user_id [] = false
is_member user_id (m ∷ ms) = m.user_id == user_id || is_member user_id ms

-- `next((m for m in members if m.user_id == user_id), None)`
unfoldable pub find_member : ℕ → List OrganizationMember → Option OrganizationMember
find_member user_id [] = none
find_member user_id (m ∷ ms) = if m.user_id == user_id then some m else find_member user_id ms

-- `sum(1 for m in members if m.role == "OWNER")`
unfoldable pub owner_count : List OrganizationMember → ℕ
owner_count [] = 0
owner_count (m ∷ ms) = let rest = owner_count ms in if m.role == "OWNER" then suc rest else rest

-- `[m for m in members if m.user_id != user_id]`
unfoldable pub without_user : ℕ → List OrganizationMember → List OrganizationMember
without_user user_id [] = []
without_user user_id (m ∷ ms) =
    let rest = without_user user_id ms in if m.user_id == user_id then rest else m ∷ rest

-- the new member's entity, and the clock for `mark_updated`, come first
unfoldable pub add_member :
    BaseEntity → ℕ → ℕ → String → Organization → Result Exn (Unit {0}) × Organization
unfolding is_member touch
add_member entity now user_id role org =
    if is_member user_id org.members
    then (raise (value_error "User is already a member"), org)
    else (
      ok tt,
      record org {
        root = touch now org.root;
        members = org.members ++ record { entity = entity; user_id = user_id; role = role } ∷ [];
      },
    )

-- `create`, which returns the organization
unfoldable pub create : BaseEntity → BaseEntity → ℕ → String → String → ℕ → Organization
unfolding new_root add_member
create org_entity member_entity now name slug owner_id =
    (add_member member_entity now owner_id "OWNER" (record {
      root = new_root org_entity;
      name = name;
      slug = slug;
      billing_plan = "FREE";
      is_active = true;
      settings = [];
      members = [];
    })).1

abbrev drop_member : ℕ → ℕ → Organization → Organization
drop_member now user_id org = record org {
  root = touch now org.root;
  members = without_user user_id org.members;
}

unfoldable pub remove_member : ℕ → ℕ → Organization → Result Exn (Unit {0}) × Organization
unfolding find_member owner_count without_user touch
remove_member now user_id org = elim (find_member user_id org.members) [
  | none ↦ (ok tt, org)
  | some member ↦
      if member.role == "OWNER"
      then (if leb (owner_count org.members) 1
          then (raise (value_error "Cannot remove the last owner of the organization"), org)
          else (ok tt, drop_member now user_id org))
      else (ok tt, drop_member now user_id org)
]

unfoldable pub update_settings : Dict String Value → ℕ → Organization → Organization
unfolding update touch
update_settings new_settings now org = record org {
  settings = update org.settings new_settings;
  root = touch now org.root;
}
