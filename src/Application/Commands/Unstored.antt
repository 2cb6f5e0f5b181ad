-- ===== src/Application/Commands/Unstored.antt =====
-- A block that does not call `commit` stores nothing.
use converse_os.Prelude.{
  Bool, ◌≡◌, refl, ◌∙◌, ok, raise, inl, inr, true, false, Result, Result-cases, if◌then◌else◌,
  Bool-cases,
}
use converse_os.Domain.Events.{DomainEvent}
use converse_os.Domain.Exceptions.{Exn}
use converse_os.Infrastructure.UnitOfWork.{Sessions, Uow, aenter, aexit, rollback, close_session}
use converse_os.Application.Commands.{
  Repository, Kernel, Step, on_session, lift, continue, ◌then◌, save_with_event, leave_block,
  async_with,
}

-- What the documentation of a session says: what is stored only changes with a commit.
pub record Isolates {D Content : Type 0} (sessions : Sessions D) (stored : D → Content)
    : Type 0 where
  pub stored-begin : (d : D) → stored (sessions.begin d) ≡ stored d
  pub stored-rollback : (d : D) → stored (sessions.rollback d).1 ≡ stored d
  pub stored-close : (d : D) → stored (sessions.close d) ≡ stored d

module _ {D Content : Type 0} (stored : D → Content) where
  -- what is stored is the same after the step, whether or not it raises
  abbrev pub StoresNothing : {A B : Type 0} → Step D B A → Type 0
  StoresNothing {B = B} step = (u : Uow D B) → stored (step u).1.db ≡ stored u.db

  continue_stored :
      {A B C : Type 0} (r : Result Exn A) (u : Uow D B) (next : A → Step D B C)
      → ((a : A) → StoresNothing (next a))
      → stored (continue (r, u) next).1.db ≡ stored u.db
  continue_stored (ok a) u next n = n a u
  continue_stored (raise e) u next n = refl

  pub then-StoresNothing :
      {A B C : Type 0} (first : Step D B A) (next : A → Step D B C)
      → StoresNothing first
      → ((a : A) → StoresNothing (next a))
      → StoresNothing (first then next)
  unfolding ◌then◌
  then-StoresNothing first next f n u = continue_stored (first u).0 (first u).1 next n ∙ f u

  pub if-StoresNothing :
      {A B : Type 0} (b : Bool) (yes_step no_step : Step D B A)
      → StoresNothing yes_step
      → StoresNothing no_step
      → StoresNothing (if b then yes_step else no_step)
  if-StoresNothing true yes_step no_step h k = h
  if-StoresNothing false yes_step no_step h k = k

  -- A repository works through its session.
  pub record Works {K A : Type 0} (repository : Repository K A D) : Type 0 where
    pub find_stored : (k : K) (d : D) → stored (repository.find k d).1 ≡ stored d
    pub save_stored : (a : A) (d : D) → stored (repository.save a d).1 ≡ stored d

  -- The handler's parts that are not in the repository work through the session too.
  abbrev pub KernelWorks : {A T B : Type 0} → Kernel A T D B → Type 0
  KernelWorks {A = A} kernel = (a : A) → StoresNothing (kernel.register_aggregate a)

  pub lift-StoresNothing : {A B : Type 0} (r : Result Exn A) → StoresNothing {B = B} (lift r)
  unfolding lift
  lift-StoresNothing r u = refl

  pub on_session-StoresNothing :
      {A B : Type 0} (call : D → Result Exn A × D)
      → ((d : D) → stored (call d).1 ≡ stored d)
      → StoresNothing {B = B} (on_session call)
  unfolding on_session
  on_session-StoresNothing call h u = h u.db

  pub save_with_event-StoresNothing :
      {A T B : Type 0} (kernel : Kernel A T D B) (save : A → D → Result Exn (Unit {0}) × D)
      (event : DomainEvent) (a : A)
      → KernelWorks kernel
      → ((x : A) (d : D) → stored (save x d).1 ≡ stored d)
      → StoresNothing (save_with_event kernel save event a)
  unfolding save_with_event
  save_with_event-StoresNothing kernel save event a works saves =
      then-StoresNothing _ _ (lift-StoresNothing _)
        (λ a'. then-StoresNothing _ _ (on_session-StoresNothing _ (saves a')) (λ _. works a'))

  module _ (sessions : Sessions D) (isolates : Isolates sessions stored) where
    close_session_stored :
        {B : Type 0} (u : Uow D B) → stored (close_session sessions u).db ≡ stored u.db
    unfolding close_session
    close_session_stored u = elim (Bool-cases u.has_session) [
      | inl h ↦ rw h (isolates.stored-close u.db)
      | inr h ↦ rw h refl
    ]

    rollback_stored : {B : Type 0} (u : Uow D B) → stored (rollback sessions u).1.db ≡ stored u.db
    unfolding rollback
    rollback_stored u = elim (Bool-cases u.has_session) [
      | inl h ↦ elim (Result-cases (sessions.rollback u.db).0) [
        | inl (a, k) ↦ rw (h, k) (isolates.stored-rollback u.db)
        | inr (e, k) ↦ rw (h, k) (isolates.stored-rollback u.db)
      ]
      | inr h ↦ rw h refl
    ]

    aexit_stored :
        {B : Type 0} (raised : Bool) (u : Uow D B)
        → stored (aexit sessions raised u).1.db ≡ stored u.db
    unfolding aexit
    aexit_stored false u = close_session_stored u
    aexit_stored true u = elim (Result-cases (rollback sessions u).0) [
      | inl (a, h) ↦ rw (h, aexit) (close_session_stored _ ∙ rollback_stored u)
      | inr (e, h) ↦ rw (h, aexit) (rollback_stored u)
    ]

    leave_block_stored :
        {A B : Type 0} (r : Result Exn A) (u : Uow D B)
        → stored (leave_block sessions (r, u)).1.db ≡ stored u.db
    unfolding leave_block
    leave_block_stored (ok a) u = aexit_stored false u
    leave_block_stored (raise e) u = aexit_stored true u

    pub async_with-StoresNothing :
        {A B : Type 0} (block : Step D B A)
        → StoresNothing block
        → StoresNothing (async_with sessions block)
    unfolding async_with aenter
    async_with-StoresNothing block b u =
        let entered = aenter sessions u in
        leave_block_stored (block entered).0 (block entered).1
        ∙ b entered
        ∙ isolates.stored-begin u.db
