-- ===== src/Infrastructure/UnitOfWork/Broadcast.antt =====
-- The unit of work on the Kafka bus.
mod Tests
use mathlib.Core.Path.{subst}
use converse_os.Prelude.{
  ◌≡◌, refl, sym, ap, ◌∙◌, inl, inr, some, List, true, Result, ok, raise, arith, Result-cases,
}
use converse_os.Domain.Events.{DomainEvent}
use converse_os.Domain.Exceptions.{Exn}
use converse_os.Infrastructure.EventBus.{Process}
use converse_os.Infrastructure.EventBus.Kafka.{KafkaEventBus, publish_event}
use converse_os.Infrastructure.EventBus.Sending.{Ends, publish_many-Ends}
use converse_os.Infrastructure.Messaging.Producer.{Broker}
use converse_os.Infrastructure.UnitOfWork.{
  Sessions, Uow, publish_many, rollback, dispatch, fail, commit,
}
use converse_os.Infrastructure.UnitOfWork.Commit.{RollsBack}

module _ {D B : Type 0} (sessions : Sessions D) where
  -- a failure raises the error, and touches neither the bus nor the flag of the session
  fail-bus :
      (e : Exn) (u : Uow D B)
      → RollsBack sessions
      → ((fail sessions e u).0 ≡ raise e) × ((fail sessions e u).1.bus ≡ u.bus)
  unfolding fail rollback
  fail-bus e u clean = ground (arith, clean u.db)

  -- after the commit of the session, the result and the bus are those of `publish_many`
  commit-publish_many :
      (publish : DomainEvent → B → Result Exn (Unit {0}) × B) (u : Uow D B)
      → RollsBack sessions
      → u.has_session ≡ true
      → (sessions.commit u.db).0 ≡ ok tt
      → let outcome = commit sessions (some publish) u in
        (outcome.0, outcome.1.bus) ≡ publish_many publish u.pending_events u.bus
  unfolding commit dispatch
  commit-publish_many publish u clean open_session stored =
      elim (Result-cases (publish_many publish u.pending_events u.bus).0) [
        | inl (_, sent) ↦ ground arith
        | inr (e, refused) ↦
            let committed : Uow D B = record u { db = (sessions.commit u.db).1 } in
            ground (arith, fail-bus e (dispatch sessions (some publish) committed).1 clean)
      ]

-- A commit on an open session whose data are stored ends as the Kafka bus ends on the pending
-- events: it returns if the broker has confirmed them all, and raises what the broker has raised for
-- the first that it refuses, with those before it confirmed and those after it never sent, although
-- the data are stored. The producer is initialized, and the rollback of a session does not raise.
pub commit-Ends :
    {D S : Type 0} (sessions : Sessions D) (broker : Broker) (bus : KafkaEventBus S)
    (u : Uow D (Process S × Broker.K broker))
    → RollsBack sessions
    → u.has_session ≡ true
    → (sessions.commit u.db).0 ≡ ok tt
    → bus.producer.initialized ≡ true
    → let outcome = commit sessions (some (publish_event broker bus)) u in
      Ends broker bus u.pending_events u.bus (outcome.0, outcome.1.bus)
commit-Ends sessions broker bus u clean open_session stored started =
    subst (Ends broker bus u.pending_events u.bus)
      (sym (commit-publish_many sessions (publish_event broker bus) u clean open_session stored))
      (publish_many-Ends broker bus u.pending_events u.bus started)
