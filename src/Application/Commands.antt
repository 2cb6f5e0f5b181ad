-- ===== src/Application/Commands.antt =====
-- What the command handlers of the services share (services/*/application/commands): a block
-- `async with self.uow`, a repository of domain/repositories, and the parts of the kernel that they
-- call and that are not in the repository, which are parameters.
pub mod Unstored
pub mod Answered
pub mod Memory
use Prim.Native.String.{◌++◌}
use converse_os.Prelude.{ℕ, String, Option, none, [], true, false, Result, ok, raise}
use converse_os.Prelude.Dict.{Dict}
use converse_os.Domain.Value.{Value}
use converse_os.Domain.Events.{DomainEvent, model_post_init}
use converse_os.Domain.Exceptions.{Exn, domain, runtime_error, value_error, other}
use converse_os.Infrastructure.UnitOfWork.{Sessions, Uow, aenter, aexit}

-- A repository on the session of the unit: the look-up that the handler makes, and `save`.
pub record Repository (K A D : Type 0) : Type 0 where
  pub find : K → D → Result Exn (Option A) × D
  pub save : A → D → Result Exn (Unit {0}) × D

-- The calls of an aggregate and of the unit of which the kernel has no definition, `Result.ok`, and
-- the text of an identifier. `add_domain_event` and `register_aggregate` are in no class of the
-- repository, so with the package as it is the first raises an AttributeError; here both are
-- parameters that may raise, so that what is said of a handler holds for this kernel and for any other.
pub record Kernel (A T D B : Type 0) : Type 1 where
  pub Answer : Type 0
  pub result_ok : T → Answer
  pub str_uuid : ℕ → String
  pub add_domain_event : DomainEvent → A → Result Exn A
  pub register_aggregate : A → Uow D B → Result Exn A × Uow D B

-- a call with arguments that the function does not take
abbrev pub bad_call : String → Exn
bad_call name = other ("TypeError: " ++ name)

-- the exceptions of the kernel whose constructors have no argument `message`
abbrev pub refused : Exn
refused = bad_call "AuthorizationError"

abbrev pub already_exists : Exn
already_exists = bad_call "EntityAlreadyExists"

abbrev pub not_found : Exn
not_found = bad_call "EntityNotFound"

-- `except ValueError as e: raise ValidationError(message=str(e))`: a `ValidationError` needs a field
abbrev pub invalid_command : Exn → Exn
invalid_command (value_error message) = bad_call "ValidationError"
invalid_command (domain e) = domain e
invalid_command (runtime_error message) = runtime_error message
invalid_command (other message) = other message

-- a new event, on the fields that the default factories make
unfoldable pub new_event : String → ℕ → ℕ → Dict String Value → DomainEvent
unfolding model_post_init
new_event class id now payload = model_post_init (record {
  class = class;
  event_id = id;
  event_type = "";
  occurred_at = now;
  aggregate_id = none;
  tenant_id = none;
  correlation_id = none;
  causation_id = none;
  metadata = [];
  payload = payload;
})

-- `add_domain_event` is called on the aggregates, whose classes do not have it.
abbrev pub no_add : Exn
no_add = other "AttributeError: add_domain_event"

-- an action of a handler on its unit
abbrev pub Step : Type 0 → Type 0 → Type 0 → Type 0
Step D B A = Uow D B → Result Exn A × Uow D B

infixl 5 ◌then◌
module _ {D B : Type 0} where
  -- a call of the repository
  unfoldable pub on_session : {A : Type 0} → (D → Result Exn A × D) → Step D B A
  on_session call u = let (r, db') = call u.db in (r, record u { db = db' })

  -- what does not touch the unit
  unfoldable pub lift : {A : Type 0} → Result Exn A → Step D B A
  lift r u = (r, u)

  -- one step after the other, up to one that raises
  abbrev pub continue :
      {A C : Type 0} → Result Exn A × Uow D B → (A → Step D B C) → Result Exn C × Uow D B
  continue (ok a, u) next = next a u
  continue (raise e, u) next = (raise e, u)

  unfoldable pub ◌then◌ : {A C : Type 0} → Step D B A → (A → Step D B C) → Step D B C
  ◌then◌ first next u = continue (first u) next

module _ {D B : Type 0} where
  -- the calls of `add_domain_event`, `save` and `register_aggregate`, one after the other
  unfoldable pub save_with_event :
      {A T : Type 0}
      → Kernel A T D B
      → (A → D → Result Exn (Unit {0}) × D)
      → DomainEvent
      → A
      → Step D B A
  save_with_event kernel save event a = lift (kernel.add_domain_event event a) then λ a'.
      on_session (save a') then λ _. kernel.register_aggregate a'

  -- the end of the block: what `__aexit__` raises takes the place of the block's exception
  unfoldable pub leave_block :
      {A : Type 0} → Sessions D → Result Exn A × Uow D B → Result Exn A × Uow D B
  unfolding aexit
  leave_block sessions (ok a, u) =
      let (r, u') = aexit sessions false u in (elim r [ ok _ ↦ ok a | raise x ↦ raise x ], u')
  leave_block sessions (raise e, u) =
      let (r, u') = aexit sessions true u in (elim r [ ok _ ↦ raise e | raise x ↦ raise x ], u')

  -- `async with self.uow:`
  unfoldable pub async_with : {A : Type 0} → Sessions D → Step D B A → Step D B A
  unfolding leave_block aenter
  async_with sessions block u = leave_block sessions (block (aenter sessions u))
