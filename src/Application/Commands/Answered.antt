-- ===== src/Application/Commands/Answered.antt =====
-- What a handler that returns an answer has done before.
use converse_os.Prelude.{
  ◌≡◌, ◌≢◌, refl, ◌∙◌, ok, raise, inl, inr, true, Result, Result-cases, arith, if◌then◌else◌,
}
use converse_os.Domain.Events.{DomainEvent}
use converse_os.Domain.Exceptions.{Exn}
use converse_os.Infrastructure.UnitOfWork.{Sessions, Uow, aenter, aexit, rollback}
use converse_os.Infrastructure.UnitOfWork.Commit.{RollsBack}
use converse_os.Application.Commands.{
  Kernel, Step, on_session, lift, continue, ◌then◌, save_with_event, no_add, leave_block,
  async_with,
}

module _ {D B : Type 0} where
  -- the first step has returned a value, and the next one the answer
  pub record Passed {A C : Type 0} (first : Step D B A) (next : A → Step D B C) (u : Uow D B)
      (c : C) : Type 0 where
    pub value : A
    pub returned : (first u).0 ≡ ok value
    pub continued : (next value (first u).1).0 ≡ ok c

  then_passed :
      {A C : Type 0} (r : Result Exn A) (u : Uow D B) (next : A → Step D B C) (c : C)
      → (continue (r, u) next).0 ≡ ok c
      → (a : A) × (r ≡ ok a) × ((next a u).0 ≡ ok c)
  then_passed (ok a) u next c h = (a, refl, h)
  then_passed (raise e) u next c h = cc

  pub then-Passed :
      {A C : Type 0} (first : Step D B A) (next : A → Step D B C) (u : Uow D B) (c : C)
      → ((first then next) u).0 ≡ ok c
      → Passed first next u c
  unfolding ◌then◌
  then-Passed first next u c h =
      let (a, r, k) = then_passed (first u).0 (first u).1 next c h in
      record { value = a; returned = r; continued = k }

  -- a step that only computes
  pub lift-ok :
      {A C : Type 0} (r : Result Exn A) (next : A → Step D B C) (u : Uow D B) (c : C)
      → ((lift r then next) u).0 ≡ ok c
      → (a : A) × (r ≡ ok a) × ((next a u).0 ≡ ok c)
  unfolding ◌then◌ lift
  lift-ok r next u c h = then_passed r u next c h

  leave_block-ok :
      {A : Type 0} (sessions : Sessions D) (r : Result Exn A) (u : Uow D B) (a : A)
      → (leave_block sessions (r, u)).0 ≡ ok a
      → r ≡ ok a
  unfolding leave_block aexit
  leave_block-ok sessions (ok b) u a h = h
  leave_block-ok sessions (raise e) u a h = elim (Result-cases (aexit sessions true u).0) [
    | inl (_, k) ↦ ground arith
    | inr (x, k) ↦ ground arith
  ]

  -- a block that returns an answer has made it
  pub async_with-ok :
      {A : Type 0} (sessions : Sessions D) (block : Step D B A) (u : Uow D B) (a : A)
      → (async_with sessions block u).0 ≡ ok a
      → (block (aenter sessions u)).0 ≡ ok a
  unfolding async_with
  async_with-ok sessions block u a h =
      let entered = aenter sessions u in
      leave_block-ok sessions (block entered).0 (block entered).1 a h

  leave_block_raises :
      {A : Type 0} (sessions : Sessions D) (r : Result Exn A) (e : Exn) (u : Uow D B)
      → RollsBack sessions
      → r ≡ raise e
      → (leave_block sessions (r, u)).0 ≡ raise e
  unfolding leave_block aexit rollback
  leave_block_raises sessions (ok a) e u clean h = cc
  leave_block_raises sessions (raise x) e u clean h = ground (arith, clean u.db)

  -- what a block raises comes out
  pub async_with_raises :
      {A : Type 0} (sessions : Sessions D) (block : Step D B A) (u : Uow D B) (e : Exn)
      → RollsBack sessions
      → (block (aenter sessions u)).0 ≡ raise e
      → (async_with sessions block u).0 ≡ raise e
  unfolding async_with
  async_with_raises sessions block u e clean h =
      let entered = aenter sessions u in
      leave_block_raises sessions (block entered).0 e (block entered).1 clean h

  pub lift_answer :
      {A : Type 0} (a c : A) (u : Uow D B) → (lift {D = D} {B = B} (ok a) u).0 ≡ ok c → c ≡ a
  unfolding lift
  lift_answer a c u h = cc

  pub lift_raises :
      {A : Type 0} (e : Exn) (c : A) (u : Uow D B) → (lift {D = D} {B = B} (raise e) u).0 ≢ ok c
  unfolding lift
  lift_raises e c u h = cc

  -- the kernel as it is: adding an event raises
  abbrev pub LacksEvents : {A T : Type 0} → Kernel A T D B → Type 0
  LacksEvents {A = A} kernel =
      (event : DomainEvent) (a : A) → kernel.add_domain_event event a ≡ raise no_add

  pub save_with_event_fails :
      {A C T : Type 0} (kernel : Kernel A T D B) (save : A → D → Result Exn (Unit {0}) × D)
      (event : DomainEvent) (a : A) (next : A → Step D B C) (u : Uow D B)
      → LacksEvents kernel
      → ((save_with_event kernel save event a then next) u).0 ≡ raise no_add
  unfolding save_with_event ◌then◌ lift
  save_with_event_fails kernel save event a next u lacks = rw (lacks event a) refl

  -- The kernel's calls leave something of an aggregate as it is, such as all but its events.
  pub record Keeps {A T V : Type 0} (kernel : Kernel A T D B) (view : A → V) : Type 0 where
    pub added :
        (e : DomainEvent) (a a' : A) → kernel.add_domain_event e a ≡ ok a' → view a' ≡ view a
    pub registered :
        (a a' : A) (u : Uow D B) → (kernel.register_aggregate a u).0 ≡ ok a' → view a' ≡ view a

  -- what is saved, and what is left of it after the three calls
  pub record IsSaved {A V : Type 0} (save : A → D → Result Exn (Unit {0}) × D) (view : A → V)
      (a : A) (u : Uow D B) (after : A) : Type 0 where
    pub row : A
    pub saved : (save row u.db).0 ≡ ok tt
    pub same : view row ≡ view a
    pub left : view after ≡ view a

  pub save_with_event-IsSaved :
      {A T V : Type 0} (kernel : Kernel A T D B) (view : A → V)
      (save : A → D → Result Exn (Unit {0}) × D) (event : DomainEvent) (a after : A) (u : Uow D B)
      → Keeps kernel view
      → (save_with_event kernel save event a u).0 ≡ ok after
      → IsSaved save view a u after
  unfolding save_with_event on_session
  save_with_event-IsSaved kernel view save event a after u keeps h =
      let (row, added, h1) = lift-ok _ _ u after h in
      let saved = then-Passed (on_session (save row)) _ u after h1 in
      let same = keeps.added event a row added in
      record {
        row = row;
        saved = saved.returned;
        same = same;
        left = keeps.registered row after _ saved.continued ∙ same;
      }
