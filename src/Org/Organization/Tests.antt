-- ===== src/Org/Organization/Tests.antt =====
-- Runs of the membership methods, and instances of their theorems.
use converse_os.Prelude.{◌≡◌, refl, ◌⊎◌, none, [], ◌∷◌, true, false, nat_eq, ok, arith}
use converse_os.Domain.Entity.{BaseEntity}
use converse_os.Org.Organization.{
  Organization, is_member, find_member, owner_count, add_member, remove_member,
}
use converse_os.Org.Organization.Members.{
  IsValid, Fails, is_last_owner, Removes, remove_member-cases,
}

abbrev entity : BaseEntity
entity = record { id = 1; created_at = 0; updated_at = 0; is_deleted = false; deleted_at = none }

abbrev acme : Organization
acme = record {
  root = record { entity = entity; domain_events = [] };
  name = "Acme";
  slug = "acme";
  billing_plan = "FREE";
  is_active = true;
  settings = [];
  members =
      record { entity = entity; user_id = 5; role = "OWNER" }
      ∷ record { entity = entity; user_id = 6; role = "MEMBER" }
      ∷ [];
}

acme-IsValid : IsValid acme
unfolding is_member owner_count
acme-IsValid = record { unique = (refl, (refl, tt)); owned = omega arith }

member_runs :
    (is_member 6 (remove_member 9 6 acme).1.members ≡ false)
    × (is_member 7 (add_member entity 9 7 "OWNER" acme).1.members ≡ true)
    × ((remove_member 9 5 (add_member entity 9 7 "OWNER" acme).1).0 ≡ ok tt)
unfolding is_member remove_member add_member
member_runs = (refl, refl, refl)

remove_member-cases_example :
    let outcome = remove_member 9 5 acme in
    let member = find_member 5 acme.members in
    (member ≡ none) × (outcome ≡ (ok tt, acme))
    ⊎ (¬ (member ≡ none)) × (is_last_owner member acme.members ≡ true) × Fails acme outcome
    ⊎ (¬ (member ≡ none)) × (is_last_owner member acme.members ≡ false) × Removes 9 5 acme outcome
remove_member-cases_example = remove_member-cases 9 5 acme acme-IsValid
