-- ===== src/Users/Profile/Tests.antt =====
-- The theorem on two updates.
use converse_os.Prelude.{◌≡◌, refl, none, some, [], ◌∷◌}
use converse_os.Domain.Entity.{new_entity}
use converse_os.Users.Profile.{
  UserProfile, ProfileChange, create, update_profile, changed, replaced,
}
use converse_os.Users.Profile.Changes.{update_all, update_all-latest}

abbrev profile : UserProfile
profile = create (new_entity 7 100 100) "ann@example.com" (some "Ann") none

abbrev rename : ProfileChange
rename = record { first_name = some "Anna"; last_name = none; avatar_url = none; timezone = none }

abbrev move : ProfileChange
move = record {
  first_name = none;
  last_name = some "Lee";
  avatar_url = none;
  timezone = some "CET";
}

abbrev after : UserProfile
after = update_all ((rename, 200) ∷ (move, 300) ∷ []) profile

clock : after.root.entity.updated_at ≡ 300
unfolding update_profile
clock = refl

two_updates :
    (after.first_name ≡ some "Anna")
    × (after.last_name ≡ some "Lee")
    × (after.avatar_url ≡ none)
    × (after.timezone ≡ "CET")
    × (after.email ≡ "ann@example.com")
    × (after.preferences ≡ [])
    × (after.root.entity.id ≡ 7)
unfolding create changed replaced new_entity
two_updates = update_all-latest ((rename, 200) ∷ (move, 300) ∷ []) profile
