-- ===== src/Org/CreateOrg.antt =====
-- application/commands/create_org.py: `CreateOrgCommandHandler.handle`; dto/org_dto.py.
pub mod Answered
mod Tests
use converse_os.Prelude.{ℕ, String, Option, none, some, List, [], ◌∷◌, Bool, ok, raise}
use converse_os.Prelude.Dict.{Dict}
use converse_os.Domain.Value.{Value, num, str}
use converse_os.Domain.Events.{DomainEvent}
use converse_os.Domain.Entity.{BaseEntity}
use converse_os.Infrastructure.UnitOfWork.{Sessions}
use converse_os.Application.Commands.{
  Repository, Kernel, already_exists, new_event, Step, on_session, lift, ◌then◌, save_with_event,
  async_with,
}
use converse_os.Org.Organization.{OrganizationMember, Organization, create}

pub record CreateOrgCommand : Type 0 where
  pub name : String
  pub slug : String
  pub owner_id : ℕ

pub record OrgMemberResponse : Type 0 where
  pub user_id : String
  pub role : String

pub record OrganizationResponse : Type 0 where
  pub id : String
  pub name : String
  pub slug : String
  pub billing_plan : String
  pub is_active : Bool
  pub settings : Dict String Value
  pub members : List OrgMemberResponse

-- the entities that the default factories make, the clock, and the identifier and time of the event
pub record Fresh : Type 0 where
  pub org_entity : BaseEntity
  pub member_entity : BaseEntity
  pub now : ℕ
  pub event_id : ℕ
  pub occurred : ℕ

unfoldable pub org_created_event : Fresh → CreateOrgCommand → Organization → DomainEvent
unfolding new_event
org_created_event fresh command org =
    new_event "org_service.domain.events.org_events.OrganizationCreatedEvent" fresh.event_id
      fresh.occurred
      (("org_id", num org.root.entity.id)
        ∷ ("name", str org.name)
        ∷ ("owner_id", num command.owner_id)
        ∷ [])

-- `[OrgMemberResponse(…) for m in org.members]`
unfoldable pub member_responses : (ℕ → String) → List OrganizationMember → List OrgMemberResponse
member_responses str_uuid [] = []
member_responses str_uuid (m ∷ ms) =
    record { user_id = str_uuid m.user_id; role = m.role } ∷ member_responses str_uuid ms

unfoldable pub org_response : (ℕ → String) → Organization → OrganizationResponse
unfolding member_responses
org_response str_uuid org = record {
  id = str_uuid org.root.entity.id;
  name = org.name;
  slug = org.slug;
  billing_plan = org.billing_plan;
  is_active = org.is_active;
  settings = org.settings;
  members = member_responses str_uuid org.members;
}

module _ {D B : Type 0} (sessions : Sessions D)
    (kernel : Kernel Organization OrganizationResponse D B)
    (repo : Repository String Organization D) where
  -- the block, after the look-up of the slug
  unfoldable pub add_org : Fresh → CreateOrgCommand → Option Organization → Step D B kernel.Answer
  add_org fresh command (some existing) = lift (raise already_exists)
  add_org fresh command none =
      let org =
        create fresh.org_entity fresh.member_entity fresh.now command.name command.slug
          command.owner_id in
      save_with_event kernel repo.save (org_created_event fresh command org) org then λ org'.
      lift (ok (kernel.result_ok (org_response kernel.str_uuid org')))

  -- `handle`
  unfoldable pub create_org : Fresh → CreateOrgCommand → Step D B kernel.Answer
  create_org fresh command =
      async_with sessions (on_session (repo.find command.slug) then add_org fresh command)
