-- ===== src/Agents/Repository/Tests.antt =====
-- The theorem on an agent that is saved in an empty table.
use converse_os.Prelude.{◌≡◌, refl, none, [], ok}
use converse_os.Prelude.Dict.{lookup}
use converse_os.Domain.Entity.{new_entity}
use converse_os.Infrastructure.Rows.Memory.{memory}
use converse_os.Agents.Agent.{Agent, create}
use converse_os.Agents.Repository.{save_agent}

abbrev assistant : Agent
assistant = create (new_entity 1 0 0) 9 "Helper" "openai" "gpt" "Help." none none

stored : (save_agent memory assistant []).0 ≡ ok tt
unfolding save_agent lookup
stored = refl
