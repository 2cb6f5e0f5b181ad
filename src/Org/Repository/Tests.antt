-- ===== src/Org/Repository/Tests.antt =====
-- The theorems on an organization that was deleted and is saved in an empty table.
use converse_os.Prelude.{◌≡◌, refl, some, [], ◌∷◌, true, false, nat_eq, ok}
use converse_os.Domain.Entity.{new_entity, new_root, soft_delete}
use converse_os.Prelude.Dict.{lookup}
use converse_os.Infrastructure.Rows.Memory.{memory}
use converse_os.Org.Organization.{OrganizationMember, Organization}
use converse_os.Org.Repository.{save}
use converse_os.Org.Repository.Stored.{row_of, save-get}

abbrev owner : OrganizationMember
owner = record { entity = new_entity 11 0 0; user_id = 5; role = "OWNER" }

abbrev acme : Organization
acme = record {
  root = new_root (soft_delete 50 51 (new_entity 3 0 0));
  name = "Acme";
  slug = "acme";
  billing_plan = "FREE";
  is_active = true;
  settings = [];
  members = owner ∷ [];
}

saves : (save memory acme []).0 ≡ ok tt
unfolding save lookup
saves = refl

save-get_example : memory.get (save memory acme []).1 3 ≡ some (row_of memory acme false)
unfolding new_root soft_delete new_entity lookup
save-get_example = save-get memory acme [] saves 3
