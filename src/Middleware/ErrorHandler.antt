-- ===== src/Middleware/ErrorHandler.antt =====
-- middleware/error_handler.py: exceptions become responses. The log lines are left out, since they
-- do not change the response.
pub mod Responses
mod Tests
use converse_os.Prelude.{
  ℕ, String, Option, none, some, List, [], ◌∷◌, Bool, ◌==◌, nat_eq, Result, ok, raise,
  if◌then◌else◌,
}
use converse_os.Prelude.Dict.{Dict}
use converse_os.Prelude.Decimal.{decimal}
use converse_os.Domain.Exceptions.{
  Exn, domain, DomainException, ExceptionClass, domain_exception, entity_not_found,
  entity_already_exists, business_rule_violation, concurrency_conflict, authorization_error,
  tenant_access_denied, validation_error, rate_limit_exceeded, external_service_error,
}
use converse_os.Application.Dto.{ApiResponse, respond_fail}

-- `JSONResponse`, with the headers given to it
pub record Response : Type 0 where
  pub status_code : ℕ
  pub headers : Dict String String
  pub content : ApiResponse

-- `_handle_domain_error`
unfoldable pub handle_domain_error : DomainException → ℕ → Dict String String → Response
unfolding respond_fail
handle_domain_error exc status_code headers = record {
  status_code = status_code;
  headers = headers;
  content = respond_fail exc.error_code exc.message [] status_code;
}

-- `str(e.retry_after or 60)`
unfoldable pub retry_after_header : Option ℕ → String
unfolding decimal
retry_after_header none = decimal 60
retry_after_header (some n) = decimal (if n == 0 then 60 else n)

-- the `except` clauses on the subclasses of `DomainException`, by the exception's class
unfoldable pub handle_class : ExceptionClass → DomainException → Response
unfolding handle_domain_error retry_after_header
handle_class entity_not_found e = handle_domain_error e 404 []
handle_class entity_already_exists e = handle_domain_error e 409 []
handle_class authorization_error e = handle_domain_error e 403 []
handle_class tenant_access_denied e = handle_domain_error e 403 []
handle_class rate_limit_exceeded e =
    handle_domain_error e 429 (("Retry-After", retry_after_header e.retry_after) ∷ [])
handle_class validation_error e = handle_domain_error e 422 []
handle_class concurrency_conflict e = handle_domain_error e 409 []
handle_class business_rule_violation e = handle_domain_error e 422 []
handle_class domain_exception e = handle_domain_error e 400 []
handle_class external_service_error e = handle_domain_error e 400 []

-- `dispatch`, on the outcome of `call_next`
unfoldable pub respond : Result Exn Response → Response
unfolding handle_class respond_fail
respond (ok response) = response
respond (raise (domain e)) = handle_class e.class e
respond (raise _) = record {
  status_code = 500;
  headers = [];
  content = respond_fail "INTERNAL_SERVER_ERROR" "An unexpected error occurred" [] 500;
}
