-- ===== src/Middleware/ErrorHandler/Tests.antt =====
-- The theorems at concrete exceptions.
use converse_os.Prelude.{[], raise}
use converse_os.Domain.Exceptions.{Exn, domain, make_authorization_error}
use converse_os.Middleware.ErrorHandler.{respond}
use converse_os.Middleware.ErrorHandler.Responses.{Answers, respond-Answers}

abbrev no_delete : Exn
no_delete = domain (make_authorization_error "agent:delete" "" [])

respond-Answers_example : Answers no_delete (respond (raise no_delete))
respond-Answers_example = respond-Answers no_delete
