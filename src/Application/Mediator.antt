-- ===== src/Application/Mediator.antt =====
-- application/mediator.py: commands and queries are given to the handler of their type, through the
-- pipeline of behaviors. The log lines are left out. A coroutine is a function of the state `S` of
-- the service.
pub mod Pipeline
mod Tests
use converse_os.Prelude.{
  String, Option, none, some, List, [], ◌∷◌, ◌++◌, string_eq, Result, ok, raise,
}
use Prim.Native.String.{◌++◌ as str_append}
use converse_os.Prelude.Dict.{Dict, lookup, insert}
use converse_os.Domain.Exceptions.{Exn, value_error}

-- what awaiting a coroutine does
abbrev pub Action : Type 0 → Type 0 → Type 0
Action R S = S → Result Exn R × S

-- `handle` of a `CommandHandler` or a `QueryHandler`
abbrev pub Handler : Type 0 → Type 0 → Type 0 → Type 0
Handler Q R S = Q → Action R S

-- `handle` of a `PipelineBehavior`: it is given the request and the next coroutine
abbrev pub PipelineBehavior : Type 0 → Type 0 → Type 0 → Type 0
PipelineBehavior Q R S = Q → Action R S → Action R S

-- The types of the requests are their names.
pub record Mediator (Q R S : Type 0) : Type 0 where
  pub command_handlers : Dict String (Handler Q R S)
  pub query_handlers : Dict String (Handler Q R S)
  pub pipeline_behaviors : List (PipelineBehavior Q R S)

-- `reversed`
unfoldable pub reversed {ℓ} : {A : Type ℓ} → List A → List A
reversed [] = []
reversed (x ∷ xs) = reversed xs ++ (x ∷ [])

module _ {Q R S : Type 0} where
  -- the behavior of the base class
  unfoldable pub handle : PipelineBehavior Q R S
  handle request next_handler = next_handler

  unfoldable pub register_command_handler : String → Handler Q R S → Mediator Q R S → Mediator Q R S
  unfolding insert
  register_command_handler command_type handler m = record m {
    command_handlers = insert command_type handler m.command_handlers;
  }

  unfoldable pub register_query_handler : String → Handler Q R S → Mediator Q R S → Mediator Q R S
  unfolding insert
  register_query_handler query_type handler m = record m {
    query_handlers = insert query_type handler m.query_handlers;
  }

  unfoldable pub add_pipeline_behavior : PipelineBehavior Q R S → Mediator Q R S → Mediator Q R S
  add_pipeline_behavior behavior m = record m {
    pipeline_behaviors = m.pipeline_behaviors ++ (behavior ∷ []);
  }

  -- the loop of `_execute_pipeline` over the behaviors that it still has to put around `current`
  unfoldable pub wrap : Q → List (PipelineBehavior Q R S) → Action R S → Action R S
  wrap request [] current = current
  wrap request (behavior ∷ rest) current = wrap request rest (behavior request current)

  -- `_execute_pipeline`
  unfoldable pub execute_pipeline : List (PipelineBehavior Q R S) → Q → Action R S → Action R S
  unfolding wrap reversed
  execute_pipeline [] request final_handler = final_handler
  execute_pipeline (b ∷ bs) request final_handler = wrap request (reversed (b ∷ bs)) final_handler

  -- the part that `send` and `query` share: call the handler that was found
  unfoldable pub dispatch_to : String → Mediator Q R S → Q → Option (Handler Q R S) → Action R S
  unfolding execute_pipeline
  dispatch_to message m request none s = (raise (value_error message), s)
  dispatch_to message m request (some handler) s =
      execute_pipeline m.pipeline_behaviors request (handler request) s

  module _ (type_of : Q → String) where
    unfoldable pub send : Mediator Q R S → Q → Action R S
    unfolding lookup dispatch_to
    send m command =
        dispatch_to (str_append "No command handler registered for " (type_of command)) m command
          (lookup (type_of command) m.command_handlers)

    unfoldable pub query : Mediator Q R S → Q → Action R S
    unfolding lookup dispatch_to
    query m request =
        dispatch_to (str_append "No query handler registered for " (type_of request)) m request
          (lookup (type_of request) m.query_handlers)
