-- ===== src/App/Gateway/Tests.antt =====
-- The theorems at concrete requests. The state of the services is the number of requests sent.
use converse_os.Prelude.{
  ℕ, suc, ◌≡◌, refl, ◌⊎◌, none, some, [], ◌∷◌, true, false, string_eq, All, List, arith, Result, ok,
  raise,
}
use converse_os.Domain.Value.{null}
use converse_os.Application.Dto.{respond_ok}
use converse_os.Security.TenantContext.{TenantContext}
use converse_os.Middleware.Context.{Request, CallNext, Served}
use converse_os.Middleware.RateLimiter.{Limiter, client_id, is_rate_limited}
use converse_os.Middleware.RateLimiter.Guard.{is_internal, TooMany}
use converse_os.Middleware.RateLimiter.Example.{Table, redis, empty}
use converse_os.App.Stack.{Runtime}
use converse_os.App.Gateway.{
  ProxyRequest, Outgoing, Incoming, http_exception, ClientError, request_error, Services,
  is_passed_on, outgoing, proxy_catch_all,
}
use converse_os.App.Gateway.Limits.{limiter_view, gateway_app, IsAnswer, gateway_app-cases}
use converse_os.App.Gateway.Served.{Arrival, IsAnswered, serve, serve-IsAnswered}

is_passed_on_test : is_passed_on "Content-Length" ≡ false
unfolding is_passed_on
is_passed_on_test = refl

abbrev services : Services
services = record {
  auth = "http://auth";
  user = "http://user";
  org = "http://org";
  agent = "http://agent";
  audit = "http://audit";
}

abbrev send : Outgoing → ℕ → Result ClientError Incoming × ℕ
send o n = (raise (request_error "refused"), suc n)

abbrev claim : ProxyRequest
claim = record {
  method = "DELETE";
  path = "/api/v1/agents/7";
  query = "";
  headers = ("host", "gateway") ∷ ("x-user-roles", "super_admin") ∷ [];
  body = "";
}

-- the agents' service is asked, and its failure is answered by 502
claim_test : proxy_catch_all send services claim 0 ≡ (raise (http_exception 502 "Bad Gateway"), 1)
unfolding proxy_catch_all
claim_test = refl

-- a header that the client repeats reaches the service once
repeated_test :
    (outgoing
      (record claim { headers = ("x-a", "1") ∷ ("host", "h") ∷ ("x-a", "2") ∷ [] })
      "http://agent").headers
    ≡ ("x-a", "1") ∷ []
unfolding outgoing
repeated_test = refl

abbrev limiter : Limiter
limiter = record { default_limit = 0; window_seconds = 60 }

abbrev runtime : Runtime (Table × ℕ)
runtime = record {
  cors = λ next request ctx s. next request ctx s;
  origin = λ request. none;
  parse_uuid = λ s. none;
  new_id = "new";
  record_http_request = λ r state. state;
  duration = 3;
}

abbrev probe : Request
probe = record {
  path = "/api/v1/agents";
  method = "GET";
  client_host = some "10.0.0.1";
  correlation_id = none;
  tenant_id = none;
  user_id = none;
  roles = none;
  current_user = none;
}

abbrev no_context : TenantContext
no_context = record { tenant_id = none; user_id = none; correlation_id = none; roles = [] }

abbrev router : CallNext (Served (Table × ℕ))
router r ctx s = (ok (record { status_code = 200; headers = []; content = respond_ok null [] }), s)

gateway_app-cases_example :
    let (limited, db') =
      is_rate_limited redis limiter (client_id (limiter_view probe)) 7 true empty in
    let outcome = gateway_app redis limiter runtime router 7 true probe no_context (empty, 0) in
    (is_internal (limiter_view probe) ≡ false) × (limited ≡ true) × TooMany 60 (db', 0) outcome
    ⊎ (is_internal (limiter_view probe) ≡ true)
      × IsAnswer redis limiter runtime router probe no_context (empty, 0) outcome
    ⊎ (is_internal (limiter_view probe) ≡ false)
      × (limited ≡ false)
      × IsAnswer redis limiter runtime router probe no_context (db', 0) outcome
gateway_app-cases_example =
    gateway_app-cases redis limiter runtime router 7 true probe no_context empty 0
      (λ next request ctx s plain. refl) refl

-- the limiter as main.py sets it up
abbrev wide : Limiter
wide = record { default_limit = 200; window_seconds = 60 }

abbrev arrivals : List Arrival
arrivals =
    record { now = 7; reachable = true; request = probe }
    ∷ record { now = 7; reachable = false; request = probe }
    ∷ record { now = 9; reachable = true; request = probe }
    ∷ []

serve-IsAnswered_example :
    All
      (IsAnswered redis wide runtime router no_context)
      (serve redis wide runtime router no_context arrivals (empty, 0))
serve-IsAnswered_example =
    serve-IsAnswered redis wide runtime router no_context arrivals empty 0
      (λ next request ctx s plain. refl) ((λ request context state. refl), (λ r state. refl))
      (refl, (refl, (refl, tt))) (omega arith) (omega arith) (λ client m. refl)
