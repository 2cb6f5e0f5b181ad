-- ===== src/Middleware/ErrorHandler/Responses.antt =====
-- What a client learns from an error response.
use converse_os.Prelude.{
  ℕ, String, ◌≤◌, ◌<◌, ◌≡◌, refl, ◌≢◌, ◌⊎◌, inl, inr, Option, none, some, [], false, ◌==◌,
  string_eq, raise, arith, if◌then◌else◌,
}
use converse_os.Prelude.Dict.{lookup}
use converse_os.Domain.Exceptions.{
  Exn, domain, Details, DomainException, ExceptionClass, external_service_error,
  make_entity_not_found, make_entity_already_exists, make_business_rule_violation,
  make_concurrency_conflict, make_authorization_error, make_tenant_access_denied,
  make_validation_error, make_rate_limit_exceeded, make_external_service_error,
}
use converse_os.Middleware.ErrorHandler.{Response, handle_class, respond}

-- The response is an error envelope: it says so, carries this code and message, and repeats the
-- HTTP status in its body.
pub record Reports (code message : String) (r : Response) : Type 0 where
  pub failed : r.content.success ≡ false
  pub detail :
      r.content.error
      ≡ some (record { code = code; message = message; details = []; status_code = r.status_code })

-- the answer to an exception, by its kind
abbrev pub Answers : Exn → Response → Type 0
Answers (domain e) r =
    Reports e.error_code e.message r × (400 ≤ r.status_code) × (r.status_code < 500)
Answers _ r =
    Reports "INTERNAL_SERVER_ERROR" "An unexpected error occurred" r × (r.status_code ≡ 500)

handle_class-Reports :
    (c : ExceptionClass) (e : DomainException)
    → let r = handle_class c e in
      Reports e.error_code e.message r × (400 ≤ r.status_code) × (r.status_code < 500)
unfolding handle_class
handle_class-Reports external_service_error e =
    (record { failed = refl; detail = refl }, omega arith, omega arith)
handle_class-Reports _ e = (record { failed = refl; detail = refl }, omega arith, omega arith)

-- A call that raises an exception of the domain is answered by an envelope with the exception's own
-- code and message and a status from 400 to 499; any other exception is answered by status 500 with
-- a fixed code and message, so nothing of it is shown. The body repeats the status.
pub respond-Answers : (x : Exn) → Answers x (respond (raise x))
unfolding respond
respond-Answers (domain e) = handle_class-Reports e.class e
respond-Answers _ = (record { failed = refl; detail = refl }, refl)

-- An exception that one of the library's constructors has made.
pub data Raised : DomainException → Type 0 where
  not_found : (t i : String) (d : Details) → Raised (make_entity_not_found t i d)
  already_exists : (t f v : String) (d : Details) → Raised (make_entity_already_exists t f v d)
  rule : (r m : String) (d : Details) → Raised (make_business_rule_violation r m d)
  conflict : (t i : String) (d : Details) → Raised (make_concurrency_conflict t i d)
  authorization : (a r : String) (d : Details) → Raised (make_authorization_error a r d)
  tenant : (t : String) (d : Details) → Raised (make_tenant_access_denied t d)
  validation : (f m : String) (d : Details) → Raised (make_validation_error f m d)
  rate : (l w : ℕ) (a : Option ℕ) (d : Details) → Raised (make_rate_limit_exceeded l w a d)
  external :
      (s m : String) (c : Option ℕ) (d : Details) → Raised (make_external_service_error s m c d)

-- the status that goes with each error code
abbrev pub status_of_code : String → ℕ
status_of_code code =
    if code == "ENTITY_NOT_FOUND"
    then 404
    else if code == "ENTITY_ALREADY_EXISTS"
    then 409
    else if code == "BUSINESS_RULE_VIOLATION"
    then 422
    else if code == "CONCURRENCY_CONFLICT"
    then 409
    else if code == "AUTHORIZATION_ERROR"
    then 403
    else if code == "TENANT_ACCESS_DENIED"
    then 403
    else if code == "VALIDATION_ERROR"
    then 422
    else if code == "RATE_LIMIT_EXCEEDED"
    then 429
    else 400

-- the Retry-After header of a response
abbrev pub retry_after : Response → Option String
retry_after r = lookup "Retry-After" r.headers

-- For every exception made by one of the nine constructors the error code in the body fixes the HTTP
-- status: a client may go by either. An external service's failure is answered by 400. The header
-- Retry-After is there exactly with status 429.
pub status-Raised :
    {e : DomainException}
    → Raised e
    → let r = respond (raise (domain e)) in
      (r.status_code ≡ status_of_code e.error_code)
      × ((retry_after r ≡ none) ⊎ (r.status_code ≡ 429) × (retry_after r ≢ none))
unfolding respond make_entity_not_found make_entity_already_exists make_business_rule_violation
    make_concurrency_conflict make_authorization_error make_tenant_access_denied
    make_validation_error make_rate_limit_exceeded make_external_service_error lookup
status-Raised (rate l w none d) = (refl, inr (refl, λ h. cc))
status-Raised (rate l w (some n) d) = (refl, inr (refl, λ h. cc))
status-Raised (external s m c d) = (refl, inl refl)
status-Raised (not_found t i d) = (refl, inl refl)
status-Raised (already_exists t f v d) = (refl, inl refl)
status-Raised (rule r m d) = (refl, inl refl)
status-Raised (conflict t i d) = (refl, inl refl)
status-Raised (authorization a r d) = (refl, inl refl)
status-Raised (tenant t d) = (refl, inl refl)
status-Raised (validation f m d) = (refl, inl refl)
