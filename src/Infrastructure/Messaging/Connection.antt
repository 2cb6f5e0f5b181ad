-- ===== src/Infrastructure/Messaging/Connection.antt =====
-- infrastructure/messaging.py: `start` and `stop` of `KafkaConsumerManager`, `health_check` of
-- `KafkaProducerManager`, and `Topics`. The client's own calls are arguments.
use converse_os.Prelude.{
  String, ◌≡◌, List, [], ◌∷◌, Bool, true, false, Result, ok, raise, arith, inl, inr, Result-cases,
  if◌then◌else◌,
}
use converse_os.Domain.Exceptions.{Exn}

-- `_consumer` is set, and `_running`
pub record Connection : Type 0 where
  pub has_consumer : Bool
  pub running : Bool

module _ {S : Type 0} where
  -- the consumer is there also if it could not be started
  unfoldable pub start_consumer :
      (S → Result Exn (Unit {0}) × S) → Connection × S → Result Exn (Unit {0}) × (Connection × S)
  start_consumer start (k, s) =
      let (r, s') = start s in
      let created : Connection = record k { has_consumer = true } in
      elim r [
        | ok _ ↦ (ok tt, (record created { running = true }, s'))
        | raise e ↦ (raise e, (created, s'))
      ]

  unfoldable pub stop_consumer :
      (S → Result Exn (Unit {0}) × S) → Connection × S → Result Exn (Unit {0}) × (Connection × S)
  stop_consumer stop (k, s) =
      let stopped : Connection = record k { running = false } in
      if k.has_consumer then (let (r, s') = stop s in (r, (stopped, s'))) else (ok tt, (stopped, s))

  -- `health_check`, with the call of `partitions_for`
  unfoldable pub producer_health : Bool → (S → Result Exn (Unit {0}) × S) → S → Bool × S
  producer_health initialized partitions_for s =
      if initialized
      then (let (r, s') = partitions_for s in (elim r [ ok _ ↦ true | raise _ ↦ false ], s'))
      else (false, s)

  -- A consumer that is started is running exactly if the client could be started, and one that is
  -- stopped after that is not running, whatever the client's calls do.
  pub stop_consumer-start_consumer :
      (start stop : S → Result Exn (Unit {0}) × S) (s : S)
      → let idle : Connection = record { has_consumer = false; running = false } in
        let (r, after) = start_consumer start (idle, s) in
        (after.0.has_consumer ≡ true)
        × (after.0.running ≡ (elim r [ ok _ ↦ true | raise _ ↦ false ]))
        × ((stop_consumer stop after).1.0.running ≡ false)
  unfolding start_consumer stop_consumer
  stop_consumer-start_consumer start stop s = elim (Result-cases (start s).0) [
    | inl (_, h) ↦ ground arith
    | inr (e, h) ↦ ground arith
  ]

-- the constants of `Topics`
unfoldable pub topics : List String
topics =
    "converse.user.events" ∷ "converse.auth.events" ∷ "converse.org.events"
    ∷ "converse.agent.events" ∷ "converse.conversation.events" ∷ "converse.workflow.events"
    ∷ "converse.webhook.events" ∷ "converse.knowledge.events" ∷ "converse.llm.events"
    ∷ "converse.audit.events" ∷ "converse.billing.events" ∷ "converse.notification.events"
    ∷ "converse.analytics.events" ∷ []
