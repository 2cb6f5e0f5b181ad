-- ===== src/App/Gateway.antt =====
-- services/api-gateway/src/api_gateway: main.py, the routing and the limiter, and proxy.py, the
-- forwarding of a request. The client that sends a request to a service is a parameter, which acts
-- on the state `S` of the services.
pub mod Routing
pub mod Limits
pub mod Served
mod Tests
use Prim.Native.String.{[], ◌∷◌, ◌++◌ as str_append}
use text.Mathlib.Text.{starts_with}
use converse_os.Prelude.{
  ℕ, ◌+◌, String, Option, none, some, List, [], ◌∷◌, Bool, true, false, ◌&&◌, ◌||◌, not, ◌==◌,
  nat_eq, string_eq, leb, contains, Result, ok, raise, if◌then◌else◌,
}
use converse_os.Prelude.Case.{is_one_of}
use converse_os.Prelude.Dict.{Dict, remove}

-- what the gateway reads of a request, and forwards
pub record ProxyRequest : Type 0 where
  pub method : String
  pub path : String
  pub query : String
  pub headers : List (String × String)
  pub body : String

pub record Outgoing : Type 0 where
  pub method : String
  pub url : String
  pub headers : Dict String String
  pub content : String

pub record Incoming : Type 0 where
  pub status_code : ℕ
  pub headers : Dict String String
  pub content : String

-- `HTTPException`, or what else the client raises
pub data GatewayError : Type 0 where
  http_exception : ℕ → String → GatewayError
  unexpected : String → GatewayError

-- what `http_client.send` raises: httpx's `RequestError`, or something else
pub data ClientError : Type 0 where
  request_error : String → ClientError
  other_error : String → ClientError

-- `k.lower() not in ("content-length", "content-encoding", "transfer-encoding")`
unfoldable pub is_passed_on : String → Bool
unfolding is_one_of
is_passed_on k =
    not (is_one_of k ("content-length" ∷ "content-encoding" ∷ "transfer-encoding" ∷ []))

unfoldable pub passed_on : Dict String String → Dict String String
unfolding is_passed_on
passed_on [] = []
passed_on ((k, v) ∷ headers) =
    let rest = passed_on headers in if is_passed_on k then (k, v) ∷ rest else rest

unfoldable pub forward_url : String → ProxyRequest → String
forward_url target_url r =
    if r.query == ""
    then str_append target_url r.path
    else str_append target_url (str_append r.path (str_append "?" r.query))

-- `dict(request.headers)`: a name that is repeated is kept once, with its first value, as Starlette's
-- look-up gives it
unfoldable pub headers_dict : List (String × String) → Dict String String
unfolding remove
headers_dict [] = []
headers_dict ((name, value) ∷ headers) = (name, value) ∷ remove name (headers_dict headers)

-- `build_request`, with the headers but "host"
unfoldable pub outgoing : ProxyRequest → String → Outgoing
unfolding forward_url headers_dict remove
outgoing r target_url = record {
  method = r.method;
  url = forward_url target_url r;
  headers = remove "host" (headers_dict r.headers);
  content = r.body;
}

-- the paths that FastAPI handles by itself
abbrev pub own_routes : List String
own_routes =
    "/docs" ∷ "/redoc" ∷ "/openapi.json" ∷ "/health" ∷ "/health/live" ∷ "/health/ready" ∷ "/metrics"
    ∷ []

-- the loop over the items of `ROUTE_MAP`
unfoldable pub find_target : Dict String String → String → Option String
find_target [] path = none
find_target ((prefix, downstream_url) ∷ routes) path =
    let rest = find_target routes path in
    if starts_with path prefix then some downstream_url else rest

-- the addresses of the services in the settings
pub record Services : Type 0 where
  pub auth : String
  pub user : String
  pub org : String
  pub agent : String
  pub audit : String

-- `ROUTE_MAP`
unfoldable pub route_map : Services → Dict String String
route_map services =
    ("/api/v1/auth", services.auth)
    ∷ ("/api/v1/users", services.user)
    ∷ ("/api/v1/orgs", services.org)
    ∷ ("/api/v1/agents", services.agent)
    ∷ ("/api/v1/audit", services.audit)
    ∷ []

-- the response as what `proxy_catch_all` returns
unfoldable pub replied : Result GatewayError Incoming → Result GatewayError (Option Incoming)
replied (ok response) = ok (some response)
replied (raise e) = raise e

module _ {S : Type 0} (send : Outgoing → S → Result ClientError Incoming × S) where
  -- what `forward_request` makes of the client's answer
  unfoldable pub answer : Result ClientError Incoming → Result GatewayError Incoming
  unfolding passed_on
  answer (ok response) = ok (record response { headers = passed_on response.headers })
  answer (raise (request_error e)) = raise (http_exception 502 "Bad Gateway")
  answer (raise (other_error e)) = raise (unexpected e)

  unfoldable pub forward_request : ProxyRequest → String → S → Result GatewayError Incoming × S
  unfolding answer outgoing
  forward_request r target_url s =
      let (outcome, s') = send (outgoing r target_url) s in (answer outcome, s')

  -- the end of `proxy_catch_all`, with the target that was found; an empty address is no target
  unfoldable pub to_target :
      ProxyRequest → Option String → S → Result GatewayError (Option Incoming) × S
  unfolding forward_request replied
  to_target r none s = (raise (http_exception 404 "Route not found"), s)
  to_target r (some target_url) s =
      if target_url == ""
      then (raise (http_exception 404 "Route not found"), s)
      else (let (outcome, s') = forward_request r target_url s in (replied outcome, s'))

  -- `None` is what it returns for the gateway's own routes
  unfoldable pub proxy_catch_all :
      Services → ProxyRequest → S → Result GatewayError (Option Incoming) × S
  unfolding contains find_target to_target route_map
  proxy_catch_all services r s =
      if contains r.path own_routes
      then (ok none, s)
      else to_target r (find_target (route_map services) r.path) s
