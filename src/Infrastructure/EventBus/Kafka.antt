-- ===== src/Infrastructure/EventBus/Kafka.antt =====
-- infrastructure/event_bus.py: `KafkaEventBus`, which acts on the process and on the broker. Its
-- `publish_many` is the loop of the unit of work; log lines are left out.
use Prim.Native.String.{◌++◌}
use converse_os.Prelude.{
  ℕ, String, Option, none, some, List, [], ◌∷◌, Bool, true, false, Result, if◌then◌else◌,
}
use converse_os.Prelude.Dict.{Dict}
use converse_os.Prelude.Split.{split}
use converse_os.Domain.Value.{Value, null, str, dict, fields_of}
use converse_os.Domain.Events.{DomainEvent}
use converse_os.Domain.Exceptions.{Exn}
use converse_os.Infrastructure.Messaging.Producer.{
  KafkaMessage, make_message, Broker, KafkaProducerManager, send_message,
}
use converse_os.Infrastructure.EventBus.{Handler, Process, Handlers, publish, subscribe}

pub record KafkaEventBus (S : Type 0) : Type 0 where
  pub producer : KafkaProducerManager
  pub topic_prefix : String
  pub in_process_bus : Option (Handlers S)

abbrev opt_str : Option String → Value
opt_str none = null
opt_str (some s) = str s

abbrev or_blank : Option String → String
or_blank none = ""
or_blank (some s) = s

abbrev has_two : List String → Bool
has_two (p ∷ q ∷ ps) = true
has_two ps = false

-- Both branches of the source give the same topic.
unfoldable pub resolve_topic : {S : Type 0} → KafkaEventBus S → DomainEvent → String
unfolding split
resolve_topic bus event =
    if has_two (split "." event.event_type)
    then bus.topic_prefix ++ ".events"
    else bus.topic_prefix ++ ".events"

module _ (broker : Broker) where
  open broker use {K, str_uuid, isoformat}

  abbrev opt_uuid : Option ℕ → Option String
  opt_uuid none = none
  opt_uuid (some u) = some (str_uuid u)

  -- the `value` of the message for an event
  unfoldable pub event_value : DomainEvent → Dict String Value
  event_value event =
      ("event_id", str (str_uuid event.event_id))
      ∷ ("event_type", str event.event_type)
      ∷ ("aggregate_id", opt_str (opt_uuid event.aggregate_id))
      ∷ ("tenant_id", opt_str (opt_uuid event.tenant_id))
      ∷ ("correlation_id", opt_str event.correlation_id)
      ∷ ("causation_id", opt_str event.causation_id)
      ∷ ("occurred_at", str (isoformat event.occurred_at))
      ∷ ("data", dict (fields_of event.payload))
      ∷ ("metadata", dict (fields_of event.metadata))
      ∷ []

  module _ {S : Type 0} (bus : KafkaEventBus S) where
    unfoldable pub event_message : DomainEvent → K → KafkaMessage
    unfolding make_message resolve_topic event_value
    event_message event k =
        make_message (broker.message_id k) (broker.now k) (resolve_topic bus event)
          (opt_uuid event.aggregate_id) (some (event_value event))
          (some (
            ("event-type", event.event_type)
            ∷ ("correlation-id", or_blank event.correlation_id)
            ∷ []))
          none

    -- the handlers of the process, if the bus has one inside it
    unfoldable pub publish_inside : DomainEvent → Process S → Process S
    unfolding publish
    publish_inside event p = elim bus.in_process_bus [
      | none ↦ p
      | some handlers ↦ publish handlers event p
    ]

    unfoldable pub publish_event :
        DomainEvent → Process S × K → Result Exn (Unit {0}) × (Process S × K)
    unfolding publish_inside event_message send_message
    publish_event event (p, k) =
        let p' = publish_inside event p in
        let (r, k') = send_message broker bus.producer (event_message event k) k in (r, (p', k'))

  -- `subscribe`: nothing happens without a bus inside the process
  unfoldable pub subscribe_inside :
      {S : Type 0} → String → Handler S → KafkaEventBus S → KafkaEventBus S
  unfolding subscribe
  subscribe_inside class handler bus = elim bus.in_process_bus [
    | none ↦ bus
    | some handlers ↦ record bus { in_process_bus = some (subscribe class handler handlers) }
  ]
