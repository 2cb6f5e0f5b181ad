-- ===== src/Org/Repository.antt =====
-- infrastructure/persistence/org_repo_impl.py: `SqlOrganizationRepository`, and the rows of
-- models.py. A row holds its members, as the relationship does.
pub mod Stored
mod Tests
use converse_os.Prelude.{
  ℕ, String, List, [], ◌∷◌, Option, Bool, true, false, ◌==◌, string_eq, map, Result,
}
use converse_os.Prelude.Dict.{Dict}
use converse_os.Domain.Value.{Value}
use converse_os.Domain.Exceptions.{Exn}
use converse_os.Infrastructure.Rows.{Table, upsert, to_entity, find_one}
use converse_os.Org.Organization.{OrganizationMember, Organization}

pub record OrganizationMemberModel : Type 0 where
  pub id : ℕ
  pub user_id : ℕ
  pub role : String

-- `is_deleted` is a column of the base of the models, with the default `False`.
pub record OrganizationModel : Type 0 where
  pub name : String
  pub slug : String
  pub billing_plan : String
  pub is_active : Bool
  pub settings : Dict String Value
  pub members : List OrganizationMemberModel
  pub is_deleted : Bool

-- the loop over `org.members`
unfoldable pub member_models : List OrganizationMember → List OrganizationMemberModel
member_models [] = []
member_models (m ∷ ms) =
    record { id = m.entity.id; user_id = m.user_id; role = m.role } ∷ member_models ms

unfoldable pub new_model : Organization → OrganizationModel
unfolding member_models
new_model org = record {
  name = org.name;
  slug = org.slug;
  billing_plan = org.billing_plan;
  is_active = org.is_active;
  settings = org.settings;
  members = member_models org.members;
  is_deleted = false;
}

-- the assignments of the other branch
unfoldable pub updated_model : Organization → OrganizationModel → OrganizationModel
unfolding member_models
updated_model org model = record model {
  name = org.name;
  slug = org.slug;
  billing_plan = org.billing_plan;
  is_active = org.is_active;
  settings = org.settings;
  members = member_models org.members;
}

module _ (table : Table OrganizationModel) where
  unfoldable pub save : Organization → table.S → Result Exn (Unit {0}) × table.S
  unfolding upsert new_model updated_model
  save org s = upsert table org.root.entity.id (new_model org) (updated_model org) s

  unfoldable pub get_by_id : ℕ → table.S → Result Exn (Option Organization)
  unfolding to_entity
  get_by_id org_id s = to_entity table (table.get s org_id)

  unfoldable pub get_by_slug : String → table.S → Result Exn (Option Organization)
  unfolding find_one
  get_by_slug slug s = find_one table (λ model. model.slug == slug) s
