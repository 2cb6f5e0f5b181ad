-- ===== src/Infrastructure/UnitOfWork/Block.antt =====
-- An `async with uow:` block that registers aggregates and does not call `commit`, as the command
-- handlers of the services are written.
use converse_os.Prelude.{◌≡◌, refl, List, [], ◌∷◌, Bool, true, false, ok, arith, if◌then◌else◌}
use converse_os.Domain.Events.{DomainEvent}
use converse_os.Domain.Entity.{AggregateRoot}
use converse_os.Infrastructure.UnitOfWork.{Sessions, Uow, Outcome, aenter, aexit, register_events}
use converse_os.Infrastructure.UnitOfWork.Commit.{RollsBack}

module _ {D B : Type 0} where
  abbrev pub register_all : List (AggregateRoot DomainEvent) → Uow D B → Uow D B
  register_all [] u = u
  register_all (a ∷ rest) u = register_all rest (register_events a u).0

  abbrev pub block : Sessions D → Bool → List (AggregateRoot DomainEvent) → Uow D B → Outcome D B
  block sessions raised aggregates u =
      aexit sessions raised (register_all aggregates (aenter sessions u))

  register_all_keeps :
      (aggregates : List (AggregateRoot DomainEvent)) (u : Uow D B)
      → let u' = register_all aggregates u in
        (u'.bus ≡ u.bus) × (u'.db ≡ u.db) × (u'.has_session ≡ u.has_session)
  unfolding register_events
  register_all_keeps [] u = (refl, refl, refl)
  register_all_keeps (a ∷ rest) u = register_all_keeps rest (register_events a u).0

  -- Without a call of `commit` no registered event reaches the bus, whether or not the block
  -- raises; the session is closed, without a commit, after a rollback exactly if it raised.
  pub block-publishes_nothing :
      (sessions : Sessions D) (raised : Bool) (aggregates : List (AggregateRoot DomainEvent))
      (u : Uow D B)
      → RollsBack sessions
      → let (r, u') = block sessions raised aggregates u in
        let started = sessions.begin u.db in
        (r ≡ ok tt)
        × (u'.bus ≡ u.bus)
        × (u'.has_session ≡ false)
        × (u'.db ≡ sessions.close (if raised then (sessions.rollback started).1 else started))
  unfolding aexit aenter
  block-publishes_nothing sessions false aggregates u clean =
      ground (arith, register_all_keeps aggregates (aenter sessions u))
  block-publishes_nothing sessions true aggregates u clean =
      ground (arith, register_all_keeps aggregates (aenter sessions u), clean (sessions.begin u.db))
