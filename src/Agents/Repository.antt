-- ===== src/Agents/Repository.antt =====
-- infrastructure/persistence/agent_repo_impl.py: `SqlAgentRepository`. The column `settings` holds the
-- four settings, as `model_dump` gives them.
pub mod Ownership
mod Tests
use converse_os.Prelude.{
  ℕ, String, Option, Bool, false, List, [], ◌∷◌, ◌==◌, nat_eq, Result, ok, raise,
}
use converse_os.Domain.Exceptions.{Exn}
use converse_os.Infrastructure.Rows.{Table, upsert, to_entity, no_reconstitute}
use converse_os.Agents.Agent.{LlmSettings, Agent}

pub record AgentModel : Type 0 where
  pub org_id : ℕ
  pub name : String
  pub description : Option String
  pub llm_provider : String
  pub model_name : String
  pub system_prompt : String
  pub settings : LlmSettings
  pub is_active : Bool
  pub is_deleted : Bool

unfoldable pub new_agent_model : Agent → AgentModel
new_agent_model a = record {
  org_id = a.org_id;
  name = a.name;
  description = a.description;
  llm_provider = a.llm_provider;
  model_name = a.model_name;
  system_prompt = a.system_prompt;
  settings = a.settings;
  is_active = a.is_active;
  is_deleted = false;
}

-- the assignments of the other branch, which leave the organization
unfoldable pub updated_agent_model : Agent → AgentModel → AgentModel
updated_agent_model a model = record model {
  name = a.name;
  description = a.description;
  llm_provider = a.llm_provider;
  model_name = a.model_name;
  system_prompt = a.system_prompt;
  settings = a.settings;
  is_active = a.is_active;
}

module _ (table : Table AgentModel) where
  unfoldable pub save_agent : Agent → table.S → Result Exn (Unit {0}) × table.S
  unfolding upsert new_agent_model updated_agent_model
  save_agent a s = upsert table a.root.entity.id (new_agent_model a) (updated_agent_model a) s

  unfoldable pub agent_by_id : ℕ → table.S → Result Exn (Option Agent)
  unfolding to_entity
  agent_by_id agent_id s = to_entity table (table.get s agent_id)

  -- `[self._to_entity(model) for model in models]`
  unfoldable pub agents_of : List AgentModel → Result Exn (List Agent)
  agents_of [] = ok []
  agents_of (model ∷ models) = raise no_reconstitute

  unfoldable pub list_by_org : ℕ → table.S → Result Exn (List Agent)
  unfolding agents_of
  list_by_org org_id s = agents_of (table.select (λ model. model.org_id == org_id) s)
