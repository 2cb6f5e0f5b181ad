-- ===== src/Middleware/RequestLogging.antt =====
-- middleware/request_logging.py: every call is recorded, with the status that it ended in. What the
-- metrics registry does with a record is a parameter; the log lines are left out.
use converse_os.Prelude.{ℕ, String, Option, Result, ok, raise}
use converse_os.Domain.Exceptions.{Exn}
use converse_os.Security.TenantContext.{TenantContext}
use converse_os.Middleware.ErrorHandler.{Response}
use converse_os.Middleware.Context.{Request, CallNext, Served}

-- the arguments of `record_http_request`; a missing tenant is printed as "none"
pub record HttpRecord : Type 0 where
  pub endpoint : String
  pub method : String
  pub status : ℕ
  pub duration : ℕ
  pub tenant_id : Option ℕ

-- `status_code` in the `finally` clause
unfoldable pub status_of : Result Exn Response → ℕ
status_of (ok response) = response.status_code
status_of (raise e) = 500

-- `dispatch`, with the time between its two readings of the clock
unfoldable pub logging_dispatch :
    {S : Type 0}
    → (HttpRecord → S → S)
    → ℕ
    → CallNext (Served S)
    → Request
    → TenantContext
    → Served S
unfolding status_of
logging_dispatch record_http_request duration call_next request ctx s =
    let (outcome, s') = call_next request ctx s in
    (
      outcome,
      record_http_request
          (record {
            endpoint = request.path;
            method = request.method;
            status = status_of outcome;
            duration = duration;
            tenant_id = ctx.tenant_id;
          })
          s',
    )
