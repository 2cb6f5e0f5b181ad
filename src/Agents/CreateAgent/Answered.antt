-- ===== src/Agents/CreateAgent/Answered.antt =====
-- What becomes of the command for a new agent.
use converse_os.Prelude.{ℕ, Option, Result, ok, raise}
use converse_os.Domain.Exceptions.{Exn}
use converse_os.Infrastructure.UnitOfWork.{Sessions}
use converse_os.Application.Commands.{no_add, Repository, Kernel}
use converse_os.Agents.Agent.{LlmSettings, Agent}
use converse_os.Agents.CreateAgent.{AgentResponse}

module _ {D B Content : Type 0} (sessions : Sessions D) (kernel : Kernel Agent AgentResponse D B)
    (repo : Repository ℕ Agent D) (stored : D → Content) where
  -- the exception of the handler, by what the settings give
  abbrev pub failure : Result Exn (Option LlmSettings) → Exn
  failure (raise e) = e
  failure (ok settings) = no_add
