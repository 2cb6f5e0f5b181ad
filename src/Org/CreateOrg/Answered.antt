-- ===== src/Org/CreateOrg/Answered.antt =====
-- What becomes of the command for a new organization.
use converse_os.Prelude.{String, ◌≡◌, refl, Option, none, some, Result, ok, raise}
use converse_os.Domain.Exceptions.{Exn}
use converse_os.Infrastructure.UnitOfWork.{Sessions, Uow, aenter}
use converse_os.Infrastructure.UnitOfWork.Commit.{RollsBack}
use converse_os.Application.Commands.{
  already_exists, no_add, Repository, Kernel, on_session, lift, continue, ◌then◌,
}
use converse_os.Application.Commands.Unstored.{
  Isolates, StoresNothing, lift-StoresNothing, on_session-StoresNothing, then-StoresNothing,
  save_with_event-StoresNothing, async_with-StoresNothing, Works, KernelWorks,
}
use converse_os.Application.Commands.Answered.{
  LacksEvents, save_with_event_fails, async_with_raises,
}
use converse_os.Org.Organization.{Organization}
use converse_os.Org.CreateOrg.{CreateOrgCommand, OrganizationResponse, Fresh, add_org, create_org}

module _ {D B Content : Type 0} (sessions : Sessions D)
    (kernel : Kernel Organization OrganizationResponse D B)
    (repo : Repository String Organization D) (stored : D → Content) where
  add_org-StoresNothing :
      (fresh : Fresh) (command : CreateOrgCommand) (existing : Option Organization)
      → Works stored repo
      → KernelWorks stored kernel
      → StoresNothing stored (add_org sessions kernel repo fresh command existing)
  unfolding add_org
  add_org-StoresNothing fresh command (some existing) works kernel_works =
      lift-StoresNothing stored _
  add_org-StoresNothing fresh command none works kernel_works =
      then-StoresNothing stored _ _
        (save_with_event-StoresNothing stored kernel repo.save _ _ kernel_works works.save_stored)
        (λ _. lift-StoresNothing stored _)

  create_org-StoresNothing :
      (fresh : Fresh) (command : CreateOrgCommand)
      → Isolates sessions stored
      → Works stored repo
      → KernelWorks stored kernel
      → StoresNothing stored (create_org sessions kernel repo fresh command)
  unfolding create_org
  create_org-StoresNothing fresh command isolates works kernel_works =
      async_with-StoresNothing stored sessions isolates _ (
        then-StoresNothing stored _ _
          (on_session-StoresNothing stored _ (works.find_stored command.slug))
          (λ existing. add_org-StoresNothing fresh command existing works kernel_works))

  -- the exception of the handler, by what the look-up of the slug returns
  abbrev pub failure : Result Exn (Option Organization) → Exn
  failure (raise e) = e
  failure (ok (some existing)) = already_exists
  failure (ok none) = no_add

  block_raises :
      (fresh : Fresh) (command : CreateOrgCommand) (r : Result Exn (Option Organization))
      (u : Uow D B)
      → LacksEvents kernel
      → (continue (r, u) (add_org sessions kernel repo fresh command)).0 ≡ raise (failure r)
  unfolding add_org lift
  block_raises fresh command (raise e) u lacks = refl
  block_raises fresh command (ok (some existing)) u lacks = refl
  block_raises fresh command (ok none) u lacks =
      save_with_event_fails kernel repo.save _ _ _ u lacks

  -- No new organization is answered or stored where `add_domain_event` raises an AttributeError, as it
  -- does since no class has it. The command raises what the look-up of its slug raises, or the error
  -- for a slug that is taken, or, if the slug is free, that AttributeError; and the database stores
  -- what it has stored before. The repository works through the session, whose rollback does not raise, and what is stored changes
  -- only with its commit; `register_aggregate` works through the session too.
  pub create_org_unanswered :
      (fresh : Fresh) (command : CreateOrgCommand) (u : Uow D B)
      → LacksEvents kernel
      → RollsBack sessions
      → Isolates sessions stored
      → Works stored repo
      → KernelWorks stored kernel
      → let (r, u') = create_org sessions kernel repo fresh command u in
        (r ≡ raise (failure (repo.find command.slug (sessions.begin u.db)).0))
        × (stored u'.db ≡ stored u.db)
  unfolding create_org on_session ◌then◌ aenter
  create_org_unanswered fresh command u lacks clean isolates works kernel_works = (
    async_with_raises sessions
        (on_session (repo.find command.slug) then add_org sessions kernel repo fresh command) u
        (failure (repo.find command.slug (sessions.begin u.db)).0) clean
        (block_raises fresh command (repo.find command.slug (sessions.begin u.db)).0 _ lacks),
    create_org-StoresNothing fresh command isolates works kernel_works u,
  )
