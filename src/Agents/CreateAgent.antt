-- ===== src/Agents/CreateAgent.antt =====
-- application/commands/create_agent.py: `CreateAgentCommandHandler.handle`; dto/agent_dto.py. The
-- temperature and `top_p` are in hundredths, and may be negative.
pub mod Answered
mod Tests
use converse_os.Prelude.{ℕ, String, Option, none, some, [], ◌∷◌, Bool, Result, ok, raise}
use converse_os.Prelude.Int.{ℤ}
use converse_os.Domain.Value.{num, str}
use converse_os.Domain.Events.{DomainEvent}
use converse_os.Domain.Exceptions.{Exn, value_error}
use converse_os.Domain.Entity.{BaseEntity}
use converse_os.Infrastructure.UnitOfWork.{Sessions}
use converse_os.Application.Commands.{
  Repository, Kernel, new_event, Step, on_session, lift, ◌then◌, save_with_event, async_with,
}
use converse_os.Agents.Agent.{LlmSettings, Agent, make_settings, create}

-- what the DTO of the settings holds; it checks no bounds
pub record LlmSettingsDto : Type 0 where
  pub temperature : ℤ
  pub top_p : ℤ
  pub top_k : ℤ
  pub max_tokens : ℤ

pub record CreateAgentCommand : Type 0 where
  pub org_id : ℕ
  pub name : String
  pub description : Option String
  pub llm_provider : String
  pub model_name : String
  pub system_prompt : String
  pub settings : Option LlmSettingsDto

pub record AgentResponse : Type 0 where
  pub id : String
  pub org_id : String
  pub name : String
  pub description : Option String
  pub llm_provider : String
  pub model_name : String
  pub system_prompt : String
  pub settings : LlmSettingsDto
  pub is_active : Bool

-- the entity that the default factories make, and the identifier and time of the event
pub record Fresh : Type 0 where
  pub entity : BaseEntity
  pub event_id : ℕ
  pub occurred : ℕ

unfoldable pub agent_created_event : Fresh → CreateAgentCommand → Agent → DomainEvent
unfolding new_event
agent_created_event fresh command agent =
    new_event "agent_service.domain.events.agent_events.AgentCreatedEvent" fresh.event_id
      fresh.occurred
      (("agent_id", num agent.root.entity.id)
        ∷ ("org_id", num command.org_id)
        ∷ ("name", str agent.name)
        ∷ [])

unfoldable pub settings_dto : LlmSettings → LlmSettingsDto
settings_dto s = record {
  temperature = s.temperature;
  top_p = s.top_p;
  top_k = s.top_k;
  max_tokens = s.max_tokens;
}

unfoldable pub agent_response : (ℕ → String) → Agent → AgentResponse
unfolding settings_dto
agent_response str_uuid agent = record {
  id = str_uuid agent.root.entity.id;
  org_id = str_uuid agent.org_id;
  name = agent.name;
  description = agent.description;
  llm_provider = agent.llm_provider;
  model_name = agent.model_name;
  system_prompt = agent.system_prompt;
  settings = settings_dto agent.settings;
  is_active = agent.is_active;
}

-- a construction that is refused raises a validation error, which is a `ValueError`
abbrev constructed : Option LlmSettings → Result Exn (Option LlmSettings)
constructed none = raise (value_error "LLMSettings")
constructed (some s) = ok (some s)

-- `settings_vo`
unfoldable pub settings_of : Option LlmSettingsDto → Result Exn (Option LlmSettings)
unfolding make_settings
settings_of none = ok none
settings_of (some s) = constructed (make_settings s.temperature s.top_p s.top_k s.max_tokens)

module _ {D B : Type 0} (sessions : Sessions D) (kernel : Kernel Agent AgentResponse D B)
    (repo : Repository ℕ Agent D) where
  -- the block, after the settings
  unfoldable pub add_agent :
      Fresh → CreateAgentCommand → Option LlmSettings → Step D B kernel.Answer
  add_agent fresh command settings =
      let agent =
        create fresh.entity command.org_id command.name command.llm_provider command.model_name
          command.system_prompt command.description settings in
      save_with_event kernel repo.save (agent_created_event fresh command agent) agent
      then λ agent'. lift (ok (kernel.result_ok (agent_response kernel.str_uuid agent')))

  -- `handle`
  unfoldable pub create_agent : Fresh → CreateAgentCommand → Step D B kernel.Answer
  create_agent fresh command =
      async_with sessions (lift (settings_of command.settings) then add_agent fresh command)
