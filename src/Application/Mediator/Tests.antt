-- ===== src/Application/Mediator/Tests.antt =====
-- The theorems on a mediator with one handler, of commands that are their type's name.
use converse_os.Prelude.{ℕ, suc, String, [], ◌∷◌, string_eq, ok, raise}
use converse_os.Domain.Exceptions.{value_error}
use converse_os.Application.Mediator.{Handler, PipelineBehavior, Mediator, register_command_handler}

-- The state counts the calls.
abbrev create_handler : Handler String ℕ ℕ
create_handler command s = (ok s, suc s)

abbrev logging : PipelineBehavior String ℕ ℕ
logging request next s = next (suc s)

abbrev refusing : PipelineBehavior String ℕ ℕ
refusing request next s = (raise (value_error "no"), s)

abbrev zero_handler : Handler String ℕ ℕ
zero_handler command s = (ok 0, s)

abbrev type_of : String → String
type_of command = command

abbrev mediator : Mediator String ℕ ℕ
mediator =
    register_command_handler "CreateUser" create_handler
      (record { command_handlers = []; query_handlers = []; pipeline_behaviors = logging ∷ [] })
