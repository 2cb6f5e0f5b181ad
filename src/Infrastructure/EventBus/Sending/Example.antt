-- ===== src/Infrastructure/EventBus/Sending/Example.antt =====
-- A broker that takes one message and refuses the next, and a bus on it.
use converse_os.Prelude.{ℕ, ◌≡◌, sym, ap, none, some, List, [], ◌∷◌, ◌++◌, true, Result, ok, raise}
use converse_os.Domain.Events.{DomainEvent}
use converse_os.Domain.Exceptions.{Exn, other}
use converse_os.Infrastructure.EventBus.{Process}
use converse_os.Infrastructure.EventBus.Kafka.{KafkaEventBus}
use converse_os.Infrastructure.Messaging.Producer.{Broker, Delivery}

abbrev pub take_one : Delivery → List Delivery → Result Exn (Unit {0}) × List Delivery
take_one d [] = (ok tt, d ∷ [])
take_one d (c ∷ cs) = (raise (other "KafkaError"), c ∷ cs)

pub take_one-sent :
    (d : Delivery) (k k' : List Delivery) → take_one d k ≡ (ok tt, k') → k' ≡ k ++ d ∷ []
take_one-sent d [] k' h = ap (λ p. p.1) (sym h)
take_one-sent d (c ∷ cs) k' h = cc

pub take_one-refused :
    (d : Delivery) (k k' : List Delivery) (e : Exn) → take_one d k ≡ (raise e, k') → k' ≡ k
take_one-refused d [] k' e h = cc
take_one-refused d (c ∷ cs) k' e h = ap (λ p. p.1) (sym h)

abbrev pub small_broker : Broker
small_broker = record {
  K = List Delivery;
  message_id = λ k. "m1";
  now = λ k. "2024-01-01T00:00:00";
  str_uuid = λ u. "u";
  isoformat = λ t. "t";
  encode = λ s. [];
  send_and_wait = take_one;
  confirmed = λ k. k;
  confirmed-sent = take_one-sent;
  confirmed-refused = take_one-refused;
}

abbrev pub kafka_bus : KafkaEventBus ℕ
kafka_bus = record {
  producer = record { initialized = true };
  topic_prefix = "converse.domain";
  in_process_bus = some [];
}

abbrev pub registered : DomainEvent
registered = record {
  class = "UserRegistered";
  event_id = 1;
  event_type = "UserRegistered";
  occurred_at = 0;
  aggregate_id = some 4;
  tenant_id = none;
  correlation_id = none;
  causation_id = none;
  metadata = [];
  payload = [];
}

abbrev pub idle : Process ℕ
idle = record { state = 0; logged = [] }
