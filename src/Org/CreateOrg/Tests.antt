-- ===== src/Org/CreateOrg/Tests.antt =====
-- A new organization on a database in memory.
use converse_os.Prelude.{raise, String, ◌≡◌, refl, [], false, string_eq}
use converse_os.Prelude.Dict.{Dict, lookup}
use converse_os.Domain.Entity.{new_entity}
use converse_os.Infrastructure.UnitOfWork.{Uow}
use converse_os.Application.Commands.{no_add, Repository, Kernel}
use converse_os.Application.Commands.Memory.{
  memory_rolls_back, Store, memory_sessions, content, memory_isolates, memory_repository,
  memory_works, memory_kernel, memory_kernel_works,
}
use converse_os.Org.Organization.{Organization}
use converse_os.Org.CreateOrg.{CreateOrgCommand, OrganizationResponse, Fresh, create_org}
use converse_os.Org.CreateOrg.Answered.{create_org_unanswered}

abbrev Organizations : Type 0
Organizations = Dict String Organization

abbrev repo : Repository String Organization (Store Organizations)
repo = memory_repository (λ org. org.slug)

abbrev kernel : Kernel Organization OrganizationResponse (Store Organizations) (Unit {0})
kernel = memory_kernel

abbrev unit : Uow (Store Organizations) (Unit {0})
unit = record {
  has_session = false;
  pending_events = [];
  db = record { content = []; work = [] };
  bus = tt;
}

abbrev fresh : Fresh
fresh = record {
  org_entity = new_entity 3 0 0;
  member_entity = new_entity 4 0 0;
  now = 1;
  event_id = 98;
  occurred = 2;
}

abbrev command : CreateOrgCommand
command = record { name = "Acme"; slug = "acme"; owner_id = 5 }

-- the kernel as it is
abbrev bare : Kernel Organization OrganizationResponse (Store Organizations) (Unit {0})
bare = record kernel { add_domain_event = λ event org. raise no_add }

create_org_unanswered_example :
    let (r, u') = create_org memory_sessions bare repo fresh command unit in
    (r ≡ raise no_add) × (u'.db.content ≡ [])
unfolding lookup
create_org_unanswered_example =
    create_org_unanswered memory_sessions bare repo content fresh command unit (λ event org. refl)
      memory_rolls_back memory_isolates (memory_works (λ org. org.slug))
      (memory_kernel_works OrganizationResponse content)
