-- ===== src/Domain/Events.antt =====
-- domain/domain_events.py: the record of an event. A subclass is known by its qualified name, and
-- its own fields are the payload.
use converse_os.Prelude.{ℕ, String, Option, ◌==◌, string_eq, if◌then◌else◌}
use converse_os.Prelude.Dict.{Dict}
use converse_os.Domain.Value.{Value}

pub record DomainEvent : Type 0 where
  pub class : String
  pub event_id : ℕ
  pub event_type : String
  pub occurred_at : ℕ
  pub aggregate_id : Option ℕ
  pub tenant_id : Option ℕ
  pub correlation_id : Option String
  pub causation_id : Option String
  pub metadata : Dict String Value
  pub payload : Dict String Value

-- `model_post_init`: an empty `event_type` becomes the qualified name of the class
unfoldable pub model_post_init : DomainEvent → DomainEvent
model_post_init e = if e.event_type == "" then record e { event_type = e.class } else e
