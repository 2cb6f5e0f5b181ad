-- ===== src/Agents/CreateAgent/Tests.antt =====
-- A new agent on a database in memory.
use converse_os.Prelude.Int.{pos}
use converse_os.Prelude.{raise, ℕ, none, some, [], false, nat_eq}
use converse_os.Prelude.Dict.{Dict}
use converse_os.Domain.Entity.{new_entity}
use converse_os.Infrastructure.UnitOfWork.{Uow}
use converse_os.Application.Commands.{no_add, Repository, Kernel}
use converse_os.Application.Commands.Memory.{Store, content, memory_repository, memory_kernel}
use converse_os.Agents.Agent.{Agent}
use converse_os.Agents.CreateAgent.{CreateAgentCommand, AgentResponse, Fresh}

abbrev Agents : Type 0
Agents = Dict ℕ Agent

abbrev repo : Repository ℕ Agent (Store Agents)
repo = memory_repository (λ a. a.root.entity.id)

abbrev kernel : Kernel Agent AgentResponse (Store Agents) (Unit {0})
kernel = memory_kernel

abbrev unit : Uow (Store Agents) (Unit {0})
unit = record {
  has_session = false;
  pending_events = [];
  db = record { content = []; work = [] };
  bus = tt;
}

abbrev fresh : Fresh
fresh = record { entity = new_entity 3 0 0; event_id = 98; occurred = 2 }

abbrev command : CreateAgentCommand
command = record {
  org_id = 5;
  name = "Helper";
  description = none;
  llm_provider = "openai";
  model_name = "gpt";
  system_prompt = "Help.";
  settings =
      some (record { temperature = pos 20; top_p = pos 90; top_k = pos 10; max_tokens = pos 100 });
}

-- the kernel as it is
abbrev bare : Kernel Agent AgentResponse (Store (Dict ℕ Agent)) (Unit {0})
bare = record kernel { add_domain_event = λ event agent. raise no_add }
