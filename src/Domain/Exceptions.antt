-- ===== src/Domain/Exceptions.antt =====
-- domain/exceptions.py: one constructor function for each subclass of `DomainException`, and the
-- other exceptions that the modelled code raises.
use Prim.Native.String.{◌++◌}
use converse_os.Prelude.{ℕ, String, Option, none, some, [], ◌∷◌, string_eq}
use converse_os.Prelude.Dict.{Dict, update}
use converse_os.Prelude.Decimal.{decimal}
use converse_os.Domain.Value.{Value, null, num, str}

pub data ExceptionClass : Type 0 where
  domain_exception entity_not_found entity_already_exists : ExceptionClass
  business_rule_violation concurrency_conflict authorization_error : ExceptionClass
  tenant_access_denied validation_error rate_limit_exceeded : ExceptionClass
  external_service_error : ExceptionClass

-- `retry_after` is an attribute of `RateLimitExceeded` alone; the others hold `none`.
pub record DomainException : Type 0 where
  pub class : ExceptionClass
  pub message : String
  pub error_code : String
  pub details : Dict String Value
  pub retry_after : Option ℕ

-- `{**fields, **(details or {})}`
abbrev pub Details : Type 0
Details = Dict String Value

abbrev opt_num : Option ℕ → Value
opt_num none = null
opt_num (some n) = num n

unfoldable pub make_domain_exception : String → String → Details → DomainException
make_domain_exception message error_code details = record {
  class = domain_exception;
  message = message;
  error_code = error_code;
  details = details;
  retry_after = none;
}

-- `entity_id` is given as printed by `str`.
unfoldable pub make_entity_not_found : String → String → Details → DomainException
make_entity_not_found entity_type entity_id details = record {
  class = entity_not_found;
  message = entity_type ++ " with id '" ++ entity_id ++ "' not found";
  error_code = "ENTITY_NOT_FOUND";
  details = update (("entity_type", str entity_type) ∷ ("entity_id", str entity_id) ∷ []) details;
  retry_after = none;
}

unfoldable pub make_entity_already_exists : String → String → String → Details → DomainException
make_entity_already_exists entity_type conflict_field conflict_value details = record {
  class = entity_already_exists;
  message =
      entity_type ++ " with " ++ conflict_field ++ "='" ++ conflict_value ++ "' already exists";
  error_code = "ENTITY_ALREADY_EXISTS";
  details =
      update
        (("entity_type", str entity_type)
          ∷ ("conflict_field", str conflict_field)
          ∷ ("conflict_value", str conflict_value)
          ∷ [])
        details;
  retry_after = none;
}

unfoldable pub make_business_rule_violation : String → String → Details → DomainException
make_business_rule_violation rule message details = record {
  class = business_rule_violation;
  message = message;
  error_code = "BUSINESS_RULE_VIOLATION";
  details = update (("rule", str rule) ∷ []) details;
  retry_after = none;
}

unfoldable pub make_concurrency_conflict : String → String → Details → DomainException
make_concurrency_conflict entity_type entity_id details = record {
  class = concurrency_conflict;
  message = "Concurrency conflict on " ++ entity_type ++ " with id '" ++ entity_id ++ "'";
  error_code = "CONCURRENCY_CONFLICT";
  details = update (("entity_type", str entity_type) ∷ ("entity_id", str entity_id) ∷ []) details;
  retry_after = none;
}

unfoldable pub make_authorization_error : String → String → Details → DomainException
make_authorization_error action resource details = record {
  class = authorization_error;
  message = "Not authorized to " ++ action ++ " on " ++ resource;
  error_code = "AUTHORIZATION_ERROR";
  details = update (("action", str action) ∷ ("resource", str resource) ∷ []) details;
  retry_after = none;
}

unfoldable pub make_tenant_access_denied : String → Details → DomainException
make_tenant_access_denied tenant_id details = record {
  class = tenant_access_denied;
  message = "Access denied: tenant isolation violation";
  error_code = "TENANT_ACCESS_DENIED";
  details = update (("requested_tenant_id", str tenant_id) ∷ []) details;
  retry_after = none;
}

unfoldable pub make_validation_error : String → String → Details → DomainException
make_validation_error field message details = record {
  class = validation_error;
  message = "Validation error on '" ++ field ++ "': " ++ message;
  error_code = "VALIDATION_ERROR";
  details = update (("field", str field) ∷ []) details;
  retry_after = none;
}

unfoldable pub make_rate_limit_exceeded : ℕ → ℕ → Option ℕ → Details → DomainException
unfolding decimal
make_rate_limit_exceeded limit window_seconds retry_after details = record {
  class = rate_limit_exceeded;
  message =
      "Rate limit exceeded: " ++ decimal limit ++ " requests per " ++ decimal window_seconds ++ "s";
  error_code = "RATE_LIMIT_EXCEEDED";
  details =
      update
        (("limit", num limit)
          ∷ ("window_seconds", num window_seconds)
          ∷ ("retry_after", opt_num retry_after)
          ∷ [])
        details;
  retry_after = retry_after;
}

unfoldable pub make_external_service_error : String → String → Option ℕ → Details → DomainException
make_external_service_error service_name message status_code details = record {
  class = external_service_error;
  message = "External service '" ++ service_name ++ "' error: " ++ message;
  error_code = "EXTERNAL_SERVICE_ERROR";
  details =
      update (("service_name", str service_name) ∷ ("status_code", opt_num status_code) ∷ [])
        details;
  retry_after = none;
}

-- What the modelled code can raise: an exception of the domain, Python's own, or any other that
-- comes out of a call.
pub data Exn : Type 0 where
  domain : DomainException → Exn
  runtime_error value_error other : String → Exn
