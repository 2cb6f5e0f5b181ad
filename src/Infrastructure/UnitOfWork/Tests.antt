-- ===== src/Infrastructure/UnitOfWork/Tests.antt =====
-- A concrete session, and instances of the theorems on it.
use converse_os.Prelude.{
  ℕ, String, ◌+◌, ◌≡◌, refl, ◌⊎◌, Option, none, some, List, [], ◌∷◌, ◌++◌, true, false, ◌==◌,
  string_eq, ok, raise, if◌then◌else◌, Result,
}
use converse_os.Domain.Events.{DomainEvent}
use converse_os.Domain.Exceptions.{Exn, other}
use converse_os.Domain.Entity.{AggregateRoot}
use converse_os.Infrastructure.UnitOfWork.{Sessions, Uow, commit}
use converse_os.Infrastructure.UnitOfWork.Commit.{RollsBack, EndsOn, commit-cases}

-- what is stored, and what the open transaction adds
abbrev Db : Type 0
Db = ℕ × ℕ

abbrev sessions : Sessions Db
sessions = record {
  begin = λ d. (d.0, 0);
  commit = λ d. (ok tt, (d.0 + d.1, 0));
  rollback = λ d. (ok tt, (d.0, 0));
  close = λ d. (d.0, 0);
}

abbrev event : String → DomainEvent
event class = record {
  class = class;
  event_id = 1;
  event_type = class;
  occurred_at = 0;
  aggregate_id = none;
  tenant_id = none;
  correlation_id = none;
  causation_id = none;
  metadata = [];
  payload = [];
}

abbrev broker : DomainEvent → Option Exn
broker e = if e.class == "B" then some (other "down") else none

abbrev unit : Uow Db (List DomainEvent)
unit = record {
  has_session = true;
  pending_events = event "A" ∷ event "B" ∷ event "C" ∷ [];
  db = (10, 5);
  bus = [];
}

-- a bus that keeps the events, but for those that the broker refuses
abbrev recording :
    (DomainEvent → Option Exn)
    → DomainEvent
    → List DomainEvent
    → Result Exn (Unit {0}) × List DomainEvent
recording refuses e log = elim (refuses e) [
  | none ↦ (ok tt, log ++ e ∷ [])
  | some x ↦ (raise x, log)
]

clean : RollsBack sessions
clean d = refl

-- The second event is refused: the first is out, the data are stored, and the caller sees an error.
commit_run : commit sessions (some (recording broker)) unit ≡ (
  raise (other "down"),
  record { has_session = true; pending_events = []; db = (15, 0); bus = event "A" ∷ [] },
)
unfolding commit
commit_run = refl

commit-cases_example :
    let done = sessions.commit unit.db in
    let bus = recording broker in
    let outcome = commit sessions (some bus) unit in
    ((e : Exn) × (done.0 ≡ raise e)
      × (outcome
          ≡ (raise e, record unit { pending_events = []; db = (sessions.rollback done.1).1 })))
    ⊎ (done.0 ≡ ok tt) × (some bus ≡ none) × (outcome ≡ (ok tt, record unit { db = done.1 }))
    ⊎ ((publish : DomainEvent → List DomainEvent → Result Exn (Unit {0}) × List DomainEvent)
        × (done.0 ≡ ok tt)
        × (some bus ≡ some publish)
        × EndsOn sessions publish unit done.1 outcome)
commit-cases_example = commit-cases sessions (some (recording broker)) unit clean refl

abbrev aggregate : AggregateRoot DomainEvent
aggregate = record {
  entity = record { id = 1; created_at = 0; updated_at = 0; is_deleted = false; deleted_at = none };
  domain_events = event "A" ∷ [];
}
