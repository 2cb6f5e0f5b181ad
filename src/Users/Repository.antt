-- ===== src/Users/Repository.antt =====
-- infrastructure/persistence/user_repo_impl.py: `SqlUserProfileRepository`.
use converse_os.Prelude.{ℕ, String, Option, Bool, false, ◌==◌, string_eq, Result}
use converse_os.Prelude.Dict.{Dict}
use converse_os.Domain.Value.{Value}
use converse_os.Domain.Exceptions.{Exn}
use converse_os.Infrastructure.Rows.{Table, upsert, to_entity, find_one}
use converse_os.Users.Profile.{UserProfile}

pub record UserProfileModel : Type 0 where
  pub email : String
  pub first_name : Option String
  pub last_name : Option String
  pub avatar_url : Option String
  pub timezone : String
  pub preferences : Dict String Value
  pub is_deleted : Bool

unfoldable pub new_profile_model : UserProfile → UserProfileModel
new_profile_model p = record {
  email = p.email;
  first_name = p.first_name;
  last_name = p.last_name;
  avatar_url = p.avatar_url;
  timezone = p.timezone;
  preferences = p.preferences;
  is_deleted = false;
}

unfoldable pub updated_profile_model : UserProfile → UserProfileModel → UserProfileModel
updated_profile_model p model = record model {
  email = p.email;
  first_name = p.first_name;
  last_name = p.last_name;
  avatar_url = p.avatar_url;
  timezone = p.timezone;
  preferences = p.preferences;
}

module _ (table : Table UserProfileModel) where
  unfoldable pub save_profile : UserProfile → table.S → Result Exn (Unit {0}) × table.S
  unfolding upsert new_profile_model updated_profile_model
  save_profile p s = upsert table p.root.entity.id (new_profile_model p) (updated_profile_model p) s

  unfoldable pub profile_by_id : ℕ → table.S → Result Exn (Option UserProfile)
  unfolding to_entity
  profile_by_id user_id s = to_entity table (table.get s user_id)

  unfoldable pub profile_by_email : String → table.S → Result Exn (Option UserProfile)
  unfolding find_one
  profile_by_email email s = find_one table (λ model. model.email == email) s
