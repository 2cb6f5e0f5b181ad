-- ===== src/Users/UpdateProfile/Answered.antt =====
-- The answer to a change of a profile, and what a query finds after it.
use converse_os.Prelude.{ℕ, ◌≡◌, refl, sym, ap, ◌∙◌, Option, none, some, ok, raise, Result}
use converse_os.Domain.Exceptions.{Exn}
use converse_os.Infrastructure.UnitOfWork.{Sessions, Uow, aenter}
use converse_os.Application.Commands.{not_found, Repository, Kernel, on_session, save_with_event}
use converse_os.Application.Commands.Unstored.{
  Isolates, StoresNothing, lift-StoresNothing, on_session-StoresNothing, then-StoresNothing,
  save_with_event-StoresNothing, async_with-StoresNothing, Works, KernelWorks,
}
use converse_os.Application.Commands.Answered.{
  Keeps, save_with_event-IsSaved, then-Passed, lift_answer, lift_raises, async_with-ok,
}
use converse_os.Users.Profile.{UserProfile, ProfileChange, update_profile}
use converse_os.Users.UpdateProfile.{
  UpdateProfileCommand, UserProfileResponse, Moment, profile_response, change_profile,
  handle_update, answer_profile, get_profile,
}

module _ {D B Content : Type 0} (sessions : Sessions D)
    (kernel : Kernel UserProfile UserProfileResponse D B) (repo : Repository ℕ UserProfile D)
    (stored : D → Content) where
  change_profile-StoresNothing :
      (at : Moment) (change : ProfileChange) (found : Option UserProfile)
      → Works stored repo
      → KernelWorks stored kernel
      → StoresNothing stored (change_profile sessions kernel repo at change found)
  unfolding change_profile
  change_profile-StoresNothing at change none works kernel_works = lift-StoresNothing stored _
  change_profile-StoresNothing at change (some profile) works kernel_works =
      then-StoresNothing stored _ _
        (save_with_event-StoresNothing stored kernel repo.save _ _ kernel_works works.save_stored)
        (λ _. lift-StoresNothing stored _)

  handle_update-StoresNothing :
      (at : Moment) (command : UpdateProfileCommand)
      → Isolates sessions stored
      → Works stored repo
      → KernelWorks stored kernel
      → StoresNothing stored (handle_update sessions kernel repo at command)
  unfolding handle_update
  handle_update-StoresNothing at command isolates works kernel_works =
      async_with-StoresNothing stored sessions isolates _ (
        then-StoresNothing stored _ _
          (on_session-StoresNothing stored _ (works.find_stored command.user_id))
          (λ found. change_profile-StoresNothing at command.change found works kernel_works))

  change_profile_answer :
      (at : Moment) (change : ProfileChange) (found : Option UserProfile) (u : Uow D B)
      (answer : kernel.Answer)
      → Keeps kernel (profile_response kernel.str_uuid)
      → (change_profile sessions kernel repo at change found u).0 ≡ ok answer
      → (p : UserProfile) × (found ≡ some p)
        × (answer
            ≡ kernel.result_ok (profile_response kernel.str_uuid (update_profile change at.now p)))
  unfolding change_profile
  change_profile_answer at change none u answer keeps h = absurd (lift_raises not_found answer u h)
  change_profile_answer at change (some p) u answer keeps h =
      let passed = then-Passed (save_with_event kernel repo.save _ _) _ u answer h in
      let saved =
        save_with_event-IsSaved kernel (profile_response kernel.str_uuid) repo.save _ _ passed.value
          u keeps passed.returned in
      (p, refl, lift_answer _ answer _ passed.continued ∙ ap kernel.result_ok saved.left)

  -- A change of a profile that is answered is of a profile that the look-up finds, and the answer is
  -- this profile with the change. The kernel's calls change nothing of a profile but its events.
  pub handle_update-answer :
      (at : Moment) (command : UpdateProfileCommand) (u : Uow D B) (answer : kernel.Answer)
      → Keeps kernel (profile_response kernel.str_uuid)
      → (handle_update sessions kernel repo at command u).0 ≡ ok answer
      → (p : UserProfile) × ((repo.find command.user_id (sessions.begin u.db)).0 ≡ ok (some p))
        × (answer
            ≡ kernel.result_ok
                (profile_response kernel.str_uuid (update_profile command.change at.now p)))
  unfolding handle_update on_session aenter
  handle_update-answer at command u answer keeps h =
      let passed =
        then-Passed (on_session (repo.find command.user_id))
          (change_profile sessions kernel repo at command.change) _ answer
          (async_with-ok sessions _ u answer h) in
      let (p, found, same) =
        change_profile_answer at command.change passed.value _ answer keeps passed.continued in
      (p, passed.returned ∙ ap ok found, same)

  get_profile_found :
      (user_id : ℕ) (d e : D)
      → (repo.find user_id d).0 ≡ (repo.find user_id e).0
      → (get_profile sessions kernel repo user_id d).0
        ≡ (get_profile sessions kernel repo user_id e).0
  unfolding get_profile
  get_profile_found user_id d e h =
      ap (λ r. elim r [ ok found ↦ answer_profile sessions kernel repo found | raise e ↦ raise e ])
        h

  -- The query of a profile in a new session answers after any change of a profile as it does before,
  -- whether or not the change is answered. The look-up in a new session finds what is stored, which
  -- changes only with a commit; the repository and the kernel's calls work through their session.
  pub get_profile-handle_update :
      (at : Moment) (command : UpdateProfileCommand) (u : Uow D B) (user_id : ℕ)
      (found : Content → ℕ → Result Exn (Option UserProfile))
      → Isolates sessions stored
      → Works stored repo
      → KernelWorks stored kernel
      → ((k : ℕ) (d : D) → (repo.find k (sessions.begin d)).0 ≡ found (stored d) k)
      → (get_profile sessions kernel repo user_id
          (sessions.begin (handle_update sessions kernel repo at command u).1.db)).0
        ≡ (get_profile sessions kernel repo user_id (sessions.begin u.db)).0
  get_profile-handle_update at command u user_id found isolates works kernel_works sees =
      get_profile_found user_id _ _ (
        sees user_id (handle_update sessions kernel repo at command u).1.db
        ∙ ap (λ c. found c user_id)
            (handle_update-StoresNothing at command isolates works kernel_works u)
        ∙ sym (sees user_id u.db))
