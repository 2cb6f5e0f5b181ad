-- ===== src/Users/UpdateProfile/Tests.antt =====
-- A change of a profile on a database in memory.
use converse_os.Prelude.{ℕ, ◌≡◌, refl, none, some, [], ◌∷◌, false, ok, nat_eq}
use converse_os.Prelude.Dict.{Dict, lookup}
use converse_os.Domain.Entity.{new_entity}
use converse_os.Infrastructure.UnitOfWork.{Uow, aenter, aexit, close_session}
use converse_os.Application.Commands.{
  Repository, Kernel, on_session, lift, ◌then◌, save_with_event, leave_block, async_with,
}
use converse_os.Application.Commands.Memory.{
  Store, memory_sessions, content, memory_isolates, memory_repository, memory_works, memory_kernel,
  memory_kernel_works,
}
use converse_os.Users.Profile.{UserProfile, update_profile}
use converse_os.Users.UpdateProfile.{
  UpdateProfileCommand, UserProfileResponse, Moment, profile_response, change_profile,
  handle_update, get_profile,
}
use converse_os.Users.UpdateProfile.Answered.{get_profile-handle_update}

abbrev Profiles : Type 0
Profiles = Dict ℕ UserProfile

abbrev repo : Repository ℕ UserProfile (Store Profiles)
repo = memory_repository (λ p. p.root.entity.id)

abbrev kernel : Kernel UserProfile UserProfileResponse (Store Profiles) (Unit {0})
kernel = memory_kernel

abbrev ann : UserProfile
ann = record {
  root = record { entity = new_entity 7 0 0; domain_events = [] };
  email = "a@b.co";
  first_name = some "Ann";
  last_name = none;
  avatar_url = none;
  preferences = [];
  timezone = "UTC";
}

abbrev unit : Uow (Store Profiles) (Unit {0})
unit = record {
  has_session = false;
  pending_events = [];
  db = record { content = (7, ann) ∷ []; work = [] };
  bus = tt;
}

abbrev at : Moment
at = record { now = 1; event_id = 98; occurred = 2 }

abbrev command : UpdateProfileCommand
command = record {
  user_id = 7;
  change = record {
    first_name = none;
    last_name = some "Lee";
    avatar_url = none;
    timezone = some "CET";
  };
}

abbrev answer : UserProfileResponse
answer = profile_response kernel.str_uuid (update_profile command.change at.now ann)

handle_update_run : (handle_update memory_sessions kernel repo at command unit).0 ≡ ok answer
unfolding handle_update change_profile async_with leave_block save_with_event on_session lift ◌then◌
    aenter aexit close_session lookup
handle_update_run = refl

get_profile-handle_update_example :
    (get_profile memory_sessions kernel repo 7
      (memory_sessions.begin (handle_update memory_sessions kernel repo at command unit).1.db)).0
    ≡ (get_profile memory_sessions kernel repo 7 (memory_sessions.begin unit.db)).0
get_profile-handle_update_example =
    get_profile-handle_update memory_sessions kernel repo content at command unit 7
      (λ profiles k. ok (lookup k profiles)) memory_isolates (memory_works (λ p. p.root.entity.id))
      (memory_kernel_works UserProfileResponse content) (λ k d. refl)
