-- ===== src/Users/UpdateProfile.antt =====
-- application/commands/update_profile.py: `UpdateProfileCommandHandler.handle`;
-- application/queries/get_profile.py: `GetProfileQueryHandler.handle`; dto/user_dto.py.
pub mod Answered
mod Tests
use converse_os.Prelude.{ℕ, String, Option, none, some, [], ◌∷◌, Result, ok, raise}
use converse_os.Prelude.Dict.{Dict}
use converse_os.Domain.Value.{Value, num}
use converse_os.Domain.Events.{DomainEvent}
use converse_os.Domain.Exceptions.{Exn}
use converse_os.Infrastructure.UnitOfWork.{Sessions}
use converse_os.Application.Commands.{
  Repository, Kernel, not_found, new_event, Step, on_session, lift, ◌then◌, save_with_event,
  async_with,
}
use converse_os.Users.Profile.{UserProfile, ProfileChange, update_profile}

pub record UpdateProfileCommand : Type 0 where
  pub user_id : ℕ
  pub change : ProfileChange

pub record UserProfileResponse : Type 0 where
  pub id : String
  pub email : String
  pub first_name : Option String
  pub last_name : Option String
  pub avatar_url : Option String
  pub timezone : String
  pub preferences : Dict String Value

unfoldable pub profile_response : (ℕ → String) → UserProfile → UserProfileResponse
profile_response str_uuid p = record {
  id = str_uuid p.root.entity.id;
  email = p.email;
  first_name = p.first_name;
  last_name = p.last_name;
  avatar_url = p.avatar_url;
  timezone = p.timezone;
  preferences = p.preferences;
}

-- the clock, and the identifier and time of the event
pub record Moment : Type 0 where
  pub now : ℕ
  pub event_id : ℕ
  pub occurred : ℕ

unfoldable pub profile_updated_event : Moment → UserProfile → DomainEvent
unfolding new_event
profile_updated_event at p =
    new_event "user_service.domain.events.user_events.UserProfileUpdatedEvent" at.event_id
      at.occurred (("user_id", num p.root.entity.id) ∷ [])

module _ {D B : Type 0} (sessions : Sessions D)
    (kernel : Kernel UserProfile UserProfileResponse D B) (repo : Repository ℕ UserProfile D) where
  -- the block, after the look-up
  unfoldable pub change_profile :
      Moment → ProfileChange → Option UserProfile → Step D B kernel.Answer
  change_profile at change none = lift (raise not_found)
  change_profile at change (some profile) =
      let p = update_profile change at.now profile in
      save_with_event kernel repo.save (profile_updated_event at p) p then λ p'.
      lift (ok (kernel.result_ok (profile_response kernel.str_uuid p')))

  -- `handle`
  unfoldable pub handle_update : Moment → UpdateProfileCommand → Step D B kernel.Answer
  handle_update at command =
      async_with sessions
        (on_session (repo.find command.user_id) then change_profile at command.change)

  -- the query's answer
  unfoldable pub answer_profile : Option UserProfile → Result Exn kernel.Answer
  answer_profile none = raise not_found
  answer_profile (some p) = ok (kernel.result_ok (profile_response kernel.str_uuid p))

  -- `handle` of the query, on the session of its repository
  unfoldable pub get_profile : ℕ → D → Result Exn kernel.Answer × D
  get_profile user_id d =
      let (r, d') = repo.find user_id d in
      (elim r [ ok found ↦ answer_profile found | raise e ↦ raise e ], d')
