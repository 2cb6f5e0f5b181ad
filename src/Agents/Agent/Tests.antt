-- ===== src/Agents/Agent/Tests.antt =====
-- The theorem on an agent whose settings are changed twice, once to values out of range.
use converse_os.Prelude.Int.{pos, negsuc}
use converse_os.Prelude.{ℕ, ◌≡◌, refl, none, List, [], ◌∷◌}
use converse_os.Domain.Entity.{new_entity}
use converse_os.Agents.Agent.{Agent, create, make_settings, update_settings, update_prompt}
use converse_os.Agents.Agent.Settings.{Change, prompt, settings, apply_all}

abbrev changes : List (Change × ℕ)
changes =
    (settings (pos 120) (pos 90) (pos 5) (pos 100), 10)
    ∷ (prompt "Be brief.", 20)
    ∷ (settings (negsuc 9) (pos 90) (pos 5) (pos 100), 30)
    ∷ []

abbrev helper : Agent
helper = create (new_entity 1 0 0) 9 "Helper" "openai" "gpt" "Help." none none

refused_change : (apply_all changes helper).settings.temperature ≡ pos 120
unfolding create make_settings update_settings update_prompt
refused_change = refl
