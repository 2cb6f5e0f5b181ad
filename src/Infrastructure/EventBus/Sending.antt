-- ===== src/Infrastructure/EventBus/Sending.antt =====
-- Which events reach the broker, and which the handlers of the process.
pub mod Example
mod Tests
use mathlib.Core.List.{append_assoc, append-nil, map-append}
use converse_os.Prelude.{
  ◌≡◌, ◌≢◌, refl, sym, ap, ◌∙◌, ◌⊎◌, inl, inr, Option, none, some, List, [], ◌∷◌, ◌++◌, map, take,
  true, string_eq, Result, ok, raise, Result-cases,
}
use converse_os.Prelude.Dict.{lookup}
use converse_os.Domain.Value.{Value, str}
use converse_os.Domain.Events.{DomainEvent}
use converse_os.Domain.Exceptions.{Exn}
use converse_os.Infrastructure.EventBus.{Process}
use converse_os.Infrastructure.EventBus.Kafka.{
  KafkaEventBus, event_value, event_message, publish_inside, publish_event, resolve_topic,
}
use converse_os.Infrastructure.Messaging.Producer.{
  Broker, Delivery, make_message, set_default, delivery_of, send_message,
}
use converse_os.Infrastructure.UnitOfWork.{publish_many}

-- the event of a message
abbrev pub event_of : Delivery → Option Value
event_of d = lookup "event_id" d.message.value

module _ (broker : Broker) {S : Type 0} (bus : KafkaEventBus S) where
  open broker use {K, confirmed}

  abbrev pub ids : List DomainEvent → List (Option Value)
  ids es = map (λ e. some (str (broker.str_uuid e.event_id))) es

  abbrev pub inside_all : List DomainEvent → Process S → Process S
  inside_all [] p = p
  inside_all (e ∷ es) p = inside_all es (publish_inside broker bus e p)

  event_id-message :
      (e : DomainEvent) (k : K)
      → lookup "event_id" (event_message broker bus e k).value
        ≡ some (str (broker.str_uuid e.event_id))
  unfolding event_message make_message set_default event_value lookup
  event_id-message e k = refl

  send_message-started :
      (e : DomainEvent) (k : K)
      → bus.producer.initialized ≡ true
      → send_message broker bus.producer (event_message broker bus e k) k
        ≡ broker.send_and_wait (delivery_of broker (event_message broker bus e k)) k
  unfolding send_message
  send_message-started e k h = rw h refl

  delivered :
      (e : DomainEvent) (p : Process S) (k : K)
      → bus.producer.initialized ≡ true
      → (publish_event broker bus e (p, k)).0 ≡ ok tt
      → map event_of (confirmed (publish_event broker bus e (p, k)).1.1)
        ≡ map event_of (confirmed k) ++ some (str (broker.str_uuid e.event_id)) ∷ []
  unfolding publish_event delivery_of
  delivered e p k h sent =
      ap (map event_of) (
        broker.confirmed-sent (delivery_of broker (event_message broker bus e k)) k _ (
          sym (send_message-started e k h)
          ∙ ap (λ r. (r, (publish_event broker bus e (p, k)).1.1)) sent))
      ∙ map-append event_of (confirmed k) _
      ∙ ap (λ i. map event_of (confirmed k) ++ i ∷ []) (event_id-message e k)

  refused :
      (e : DomainEvent) (p : Process S) (k : K) (x : Exn)
      → bus.producer.initialized ≡ true
      → (publish_event broker bus e (p, k)).0 ≡ raise x
      → confirmed (publish_event broker bus e (p, k)).1.1 ≡ confirmed k
  unfolding publish_event
  refused e p k x h failed =
      broker.confirmed-refused (delivery_of broker (event_message broker bus e k)) k _ x (
        sym (send_message-started e k h)
        ∙ ap (λ r. (r, (publish_event broker bus e (p, k)).1.1)) failed)

  inside-publish_event :
      (e : DomainEvent) (p : Process S) (k : K)
      → (publish_event broker bus e (p, k)).1.0 ≡ publish_inside broker bus e p
  unfolding publish_event
  inside-publish_event e p k = refl

  -- The broker has raised `x` on a delivery of the event, which leaves the broker as `after`, with
  -- nothing more confirmed than before.
  abbrev pub IsRefused : Exn → DomainEvent → K → Type 0
  IsRefused x e after =
      (d : Delivery) × (before : K) × (event_of d ≡ some (str (broker.str_uuid e.event_id)))
      × (broker.send_and_wait d before ≡ (raise x, after))
      × (confirmed after ≡ confirmed before)

  publish_event-IsRefused :
      (e : DomainEvent) (p : Process S) (k : K) (x : Exn)
      → bus.producer.initialized ≡ true
      → (publish_event broker bus e (p, k)).0 ≡ raise x
      → IsRefused x e (publish_event broker bus e (p, k)).1.1
  unfolding publish_event delivery_of
  publish_event-IsRefused e p k x h failed = (
    delivery_of broker (event_message broker bus e k),
    k,
    event_id-message e k,
    sym (send_message-started e k h)
        ∙ ap (λ r. (r, (publish_event broker bus e (p, k)).1.1)) failed,
    refused e p k x h failed,
  )

  -- how `publish_many` ends: the events `sent` are confirmed by the broker, in their order, and the
  -- handlers of the process have run for them and for the event that was refused, if one was; then
  -- the broker has raised the exception on the delivery of that event, and confirmed nothing by it
  abbrev pub Ends :
      List DomainEvent → Process S × K → Result Exn (Unit {0}) × (Process S × K) → Type 0
  Ends es before after =
      (sent : List DomainEvent) × (rest : List DomainEvent) × (es ≡ sent ++ rest)
      × (map event_of (confirmed after.1.1) ≡ map event_of (confirmed before.1) ++ ids sent)
      × (after.1.0 ≡ inside_all (sent ++ take 1 rest) before.0)
      × (((after.0 ≡ ok tt) × (rest ≡ []))
          ⊎ ((x : Exn) × (e : DomainEvent) × (later : List DomainEvent) × (after.0 ≡ raise x)
              × (rest ≡ e ∷ later)
              × IsRefused x e after.1.1))

  next :
      (e : DomainEvent) (es : List DomainEvent) (state : Process S × K)
      → (publish_event broker bus e state).0 ≡ ok tt
      → publish_many (publish_event broker bus) (e ∷ es) state
        ≡ publish_many (publish_event broker bus) es (publish_event broker bus e state).1
  unfolding publish_many
  next e es state went = rw (went, publish_many) refl

  stop :
      (e : DomainEvent) (es : List DomainEvent) (state : Process S × K) (x : Exn)
      → (publish_event broker bus e state).0 ≡ raise x
      → publish_many (publish_event broker bus) (e ∷ es) state
        ≡ (raise x, (publish_event broker bus e state).1)
  unfolding publish_many
  stop e es state x failed = rw (failed, publish_many) refl

  pub publish_many-Ends :
      (es : List DomainEvent) (state : Process S × K)
      → bus.producer.initialized ≡ true
      → Ends es state (publish_many (publish_event broker bus) es state)
  unfolding publish_many
  publish_many-Ends [] state h = ([], [], refl, sym (append-nil _), refl, inl (refl, refl))
  publish_many-Ends (e ∷ es) (p, k) h = elim (Result-cases (publish_event broker bus e (p, k)).0) [
    | inl (u, went) ↦
        let (sent, rest, parts, taken, ran, last) =
          publish_many-Ends es (publish_event broker bus e (p, k)).1 h in
        rw (next e es (p, k) went) (
          e ∷ sent,
          rest,
          ap (λ l. e ∷ l) parts,
          taken
              ∙ ap (λ l. l ++ ids sent) (delivered e p k h went)
              ∙ append_assoc (map event_of (confirmed k)) _ (ids sent),
          ran ∙ ap (inside_all (sent ++ take 1 rest)) (inside-publish_event e p k),
          last,
        )
    | inr (x, failed) ↦ rw (stop e es (p, k) x failed) (
      [],
      e ∷ es,
      refl,
      ap (map event_of) (refused e p k x h failed) ∙ sym (append-nil _),
      inside-publish_event e p k,
      inr (x, e, es, refl, refl, publish_event-IsRefused e p k x h failed),
    )
  ]
