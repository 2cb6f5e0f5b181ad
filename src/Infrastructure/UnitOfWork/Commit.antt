-- ===== src/Infrastructure/UnitOfWork/Commit.antt =====
-- What a commit does to the database, the bus and the pending events.
use converse_os.Prelude.{
  ◌≡◌, refl, ◌⊎◌, inl, inr, Option, none, some, [], true, Result, ok, raise, arith, Result-cases,
}
use converse_os.Domain.Events.{DomainEvent}
use converse_os.Domain.Exceptions.{Exn}
use converse_os.Infrastructure.UnitOfWork.{Sessions, Uow, publish_many, dispatch, fail, commit}

module _ {D : Type 0} (sessions : Sessions D) where
  -- The documented rollback of a session does not raise.
  abbrev pub RollsBack : Type 0
  RollsBack = (d : D) → (sessions.rollback d).0 ≡ ok tt

module _ {D B : Type 0} (sessions : Sessions D) where
  fail_lem :
      RollsBack sessions
      → (e : Exn) (u : Uow D B) → u.has_session ≡ true
      → fail sessions e u
        ≡ (raise e, record u { pending_events = []; db = (sessions.rollback u.db).1 })
  unfolding fail
  fail_lem clean e u open_session = ground (arith, clean u.db)

  -- how a commit on a bus ends whose session has stored the data, leaving `db`
  abbrev pub EndsOn :
      (DomainEvent → B → Result Exn (Unit {0}) × B)
      → Uow D B
      → D
      → Result Exn (Unit {0}) × Uow D B
      → Type 0
  EndsOn publish u db outcome =
      let (sent, bus') = publish_many publish u.pending_events u.bus in
      (sent ≡ ok tt) × (outcome ≡ (ok tt, record u { pending_events = []; db = db; bus = bus' }))
      ⊎ ((x : Exn) × (sent ≡ raise x)
          × (outcome ≡ (
            raise x,
            record u { pending_events = []; db = (sessions.rollback db).1; bus = bus' },
          )))

  published :
      (publish : DomainEvent → B → Result Exn (Unit {0}) × B) (u : Uow D B)
      → RollsBack sessions
      → u.has_session ≡ true
      → (sessions.commit u.db).0 ≡ ok tt
      → EndsOn publish u (sessions.commit u.db).1 (commit sessions (some publish) u)
  unfolding commit dispatch
  published publish u clean open_session stored =
      elim (Result-cases (publish_many publish u.pending_events u.bus).0) [
        | inl (_, sent) ↦ inl (sent, ground arith)
        | inr (x, refused) ↦ inr (
          x,
          refused,
          ground (
            arith,
            fail_lem clean x (record u {
              db = (sessions.commit u.db).1;
              bus = (publish_many publish u.pending_events u.bus).1;
            }),
          ),
        )
      ]

  -- A commit on an open session, where the session's rollback does not raise. If the session's commit
  -- raises, the session is rolled back, no event is left pending, the bus is untouched and the error
  -- is raised. If it returns and there is no bus, the call returns and the events stay pending. If it
  -- returns and there is a bus, whatever it does, the pending events are published; if that returns,
  -- so does the call, and no event is left pending; if it raises, so does the call, with the same
  -- error, and although the session has committed it is rolled back and no event is left pending.
  pub commit-cases :
      (bus : Option (DomainEvent → B → Result Exn (Unit {0}) × B)) (u : Uow D B)
      → RollsBack sessions
      → u.has_session ≡ true
      → let done = sessions.commit u.db in
        let outcome = commit sessions bus u in
        ((e : Exn) × (done.0 ≡ raise e)
          × (outcome
              ≡ (raise e, record u { pending_events = []; db = (sessions.rollback done.1).1 })))
        ⊎ (done.0 ≡ ok tt) × (bus ≡ none) × (outcome ≡ (ok tt, record u { db = done.1 }))
        ⊎ ((publish : DomainEvent → B → Result Exn (Unit {0}) × B) × (done.0 ≡ ok tt)
            × (bus ≡ some publish)
            × EndsOn publish u done.1 outcome)
  unfolding commit dispatch
  commit-cases none u clean open_session = elim (Result-cases (sessions.commit u.db).0) [
    | inr (e, failed) ↦
        inl
          (e, failed, ground (arith, fail_lem clean e (record u { db = (sessions.commit u.db).1 })))
    | inl (_, stored) ↦ inr (inl (stored, refl, ground arith))
  ]
  commit-cases (some publish) u clean open_session = elim (Result-cases (sessions.commit u.db).0) [
    | inr (e, failed) ↦
        inl
          (e, failed, ground (arith, fail_lem clean e (record u { db = (sessions.commit u.db).1 })))
    | inl (_, stored) ↦
        inr (inr (publish, stored, refl, published publish u clean open_session stored))
  ]
