-- ===== src/Infrastructure/UnitOfWork.antt =====
-- infrastructure/unit_of_work.py: `SqlAlchemyUnitOfWork`. The database session and the bus are given
-- by what their calls do to the state `D` of the one and `B` of the other.
pub mod Commit
pub mod Block
pub mod Broadcast
mod Tests
use converse_os.Prelude.{
  String, Option, none, some, List, [], ◌∷◌, ◌++◌, Bool, true, false, Result, ok, raise,
  if◌then◌else◌,
}
use converse_os.Domain.Events.{DomainEvent}
use converse_os.Domain.Exceptions.{Exn, runtime_error}
use converse_os.Domain.Entity.{AggregateRoot, collect_events}

-- `async_sessionmaker` and `AsyncSession`: the calls that the unit makes. They may raise.
pub record Sessions (D : Type 0) : Type 0 where
  pub begin : D → D
  pub commit : D → Result Exn (Unit {0}) × D
  pub rollback : D → Result Exn (Unit {0}) × D
  pub close : D → D

-- the fields of the unit, and what it acts on
pub record Uow (D B : Type 0) : Type 0 where
  pub has_session : Bool
  pub pending_events : List DomainEvent
  pub db : D
  pub bus : B

-- A method returns its result beside the unit that it leaves.
abbrev pub Outcome : Type 0 → Type 0 → Type 0
Outcome D B = Result Exn (Unit {0}) × Uow D B

module _ {B : Type 0} where
  -- `EventBus.publish_many` of both buses: one event after the other, up to one that raises
  unfoldable pub publish_many :
      (DomainEvent → B → Result Exn (Unit {0}) × B)
      → List DomainEvent
      → B
      → Result Exn (Unit {0}) × B
  publish_many publish [] b = (ok tt, b)
  publish_many publish (e ∷ es) b =
      let (r, b') = publish e b in
      let rest = publish_many publish es b' in elim r [ ok _ ↦ rest | raise x ↦ (raise x, b') ]

module _ {D B : Type 0} (sessions : Sessions D) where
  unfoldable pub aenter : Uow D B → Uow D B
  aenter u = record u { has_session = true; pending_events = []; db = sessions.begin u.db }

  unfoldable pub rollback : Uow D B → Outcome D B
  rollback u =
      if u.has_session
      then (let (r, db') = sessions.rollback u.db in
          elim r [
            | ok _ ↦ (ok tt, record u { pending_events = []; db = db' })
            | raise e ↦ (raise e, record u { db = db' })
          ])
      else (ok tt, record u { pending_events = [] })

  -- the end of `__aexit__`: the session is closed and dropped
  unfoldable pub close_session : Uow D B → Uow D B
  close_session u =
      if u.has_session
      then record u { has_session = false; db = sessions.close u.db }
      else record u { has_session = false }

  -- `__aexit__`, told whether the block raised; if the rollback raises, the session stays open
  unfoldable pub aexit : Bool → Uow D B → Outcome D B
  unfolding rollback close_session
  aexit false u = (ok tt, close_session u)
  aexit true u =
      let (r, u') = rollback u in
      elim r [ ok _ ↦ (ok tt, close_session u') | raise e ↦ (raise e, u') ]

  -- the part of `commit` after the session's commit: nothing is sent, and nothing cleared, without a
  -- bus or without events
  unfoldable pub dispatch :
      Option (DomainEvent → B → Result Exn (Unit {0}) × B) → Uow D B → Outcome D B
  unfolding publish_many
  dispatch none u = (ok tt, u)
  dispatch (some publish) u =
      let (r, b') = publish_many publish u.pending_events u.bus in
      elim r [
        | ok _ ↦ (ok tt, record u { pending_events = []; bus = b' })
        | raise e ↦ (raise e, record u { bus = b' })
      ]

  -- the `except` clause: roll back, and raise again
  unfoldable pub fail : Exn → Uow D B → Outcome D B
  unfolding rollback
  fail e u = let (r, u') = rollback u in elim r [ ok _ ↦ (raise e, u') | raise x ↦ (raise x, u') ]

  unfoldable pub commit :
      Option (DomainEvent → B → Result Exn (Unit {0}) × B) → Uow D B → Outcome D B
  unfolding dispatch fail
  commit bus u =
      if u.has_session
      then (let (r, db') = sessions.commit u.db in
          let committed : Uow D B = record u { db = db' } in
          elim r [
            | raise e ↦ fail e committed
            | ok _ ↦
                let (sent, after) = dispatch bus committed in
                elim sent [ ok _ ↦ (ok tt, after) | raise e ↦ fail e after ]
          ])
      else (raise (runtime_error "UnitOfWork not started."), u)

-- `register_events`
module _ {D B : Type 0} where
  unfoldable pub register_events :
      AggregateRoot DomainEvent → Uow D B → Uow D B × AggregateRoot DomainEvent
  unfolding collect_events
  register_events aggregate u =
      let (events, aggregate') = collect_events aggregate in
      (record u { pending_events = u.pending_events ++ events }, aggregate')
