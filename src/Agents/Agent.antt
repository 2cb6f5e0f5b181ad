-- ===== src/Agents/Agent.antt =====
-- domain/entities/agent.py: `Agent`; domain/value_objects/llm_settings.py: `LLMSettings`. The
-- temperature and `top_p` are in hundredths. Each reading of the clock is an argument.
pub mod Settings
mod Tests
use converse_os.Prelude.{ℕ, String, Option, none, some, true, Bool, ◌&&◌, leb, if◌then◌else◌}
use converse_os.Prelude.Int.{ℤ, pos, leb_ℤ}
use converse_os.Domain.Events.{DomainEvent}
use converse_os.Domain.Entity.{BaseEntity, AggregateRoot, new_root, touch}

pub record LlmSettings : Type 0 where
  pub temperature : ℤ
  pub top_p : ℤ
  pub top_k : ℤ
  pub max_tokens : ℤ

-- what the construction accepts
unfoldable pub are_valid : LlmSettings → Bool
are_valid s =
    ((leb_ℤ (pos 0) s.temperature && leb_ℤ s.temperature (pos 200))
      && (leb_ℤ (pos 0) s.top_p && leb_ℤ s.top_p (pos 100)))
    && (leb_ℤ (pos 1) s.top_k && leb_ℤ (pos 1) s.max_tokens)

-- the construction, `none` where it raises a validation error
unfoldable pub make_settings : ℤ → ℤ → ℤ → ℤ → Option LlmSettings
unfolding are_valid
make_settings temperature top_p top_k max_tokens =
    let s : LlmSettings = record {
      temperature = temperature;
      top_p = top_p;
      top_k = top_k;
      max_tokens = max_tokens;
    } in
    if are_valid s then some s else none

-- `LLMSettings()`
unfoldable pub default_settings : LlmSettings
default_settings = record {
  temperature = pos 70;
  top_p = pos 95;
  top_k = pos 40;
  max_tokens = pos 2048;
}

pub record Agent : Type 0 where
  pub root : AggregateRoot DomainEvent
  pub org_id : ℕ
  pub name : String
  pub description : Option String
  pub llm_provider : String
  pub model_name : String
  pub system_prompt : String
  pub settings : LlmSettings
  pub is_active : Bool

-- `settings or LLMSettings()`
unfoldable pub settings_or : Option LlmSettings → LlmSettings
unfolding default_settings
settings_or none = default_settings
settings_or (some s) = s

unfoldable pub create :
    BaseEntity → ℕ → String → String → String → String → Option String → Option LlmSettings → Agent
unfolding new_root settings_or
create entity org_id name llm_provider model_name system_prompt description settings = record {
  root = new_root entity;
  org_id = org_id;
  name = name;
  description = description;
  llm_provider = llm_provider;
  model_name = model_name;
  system_prompt = system_prompt;
  settings = settings_or settings;
  is_active = true;
}

unfoldable pub update_prompt : String → ℕ → Agent → Agent
unfolding touch
update_prompt new_prompt now a = record a { system_prompt = new_prompt; root = touch now a.root }

unfoldable pub update_settings : LlmSettings → ℕ → Agent → Agent
unfolding touch
update_settings new_settings now a = record a { settings = new_settings; root = touch now a.root }
