-- ===== src/App/Stack.antt =====
-- packages/shared-kernel/src/converse_shared/fastapi.py: the middlewares of `create_app`. The
-- middleware that is added last is the outermost one.
pub mod Answers
mod Tests
use converse_os.Prelude.{ℕ, String, Option, List, [], ◌∷◌, Result, ok, raise}
use converse_os.Domain.Exceptions.{Exn}
use converse_os.Security.TenantContext.{TenantContext}
use converse_os.Middleware.ErrorHandler.{Response, respond}
use converse_os.Middleware.Context.{
  Request, CallNext, Served, correlation_dispatch, tenant_dispatch,
}
use converse_os.Middleware.RequestLogging.{HttpRecord, logging_dispatch}

abbrev pub Middleware : Type 0 → Type 0
Middleware S = CallNext (Served S) → CallNext (Served S)

-- `app.add_middleware`: Starlette puts the middleware in front of those that were added before it.
unfoldable pub add_middleware :
    {S : Type 0} → Middleware S → List (Middleware S) → List (Middleware S)
add_middleware middleware user_middleware = middleware ∷ user_middleware

-- Starlette's application: the middlewares around the router, the first of the list outermost
unfoldable pub build :
    {S : Type 0} → List (Middleware S) → CallNext (Served S) → CallNext (Served S)
build [] router = router
build (m ∷ ms) router = m (build ms router)

-- `ErrorHandlerMiddleware.dispatch`
unfoldable pub error_dispatch : {S : Type 0} → Middleware S
unfolding respond
error_dispatch call_next request ctx s =
    let (outcome, s') = call_next request ctx s in (ok (respond outcome), s')

-- what the middlewares take from outside, for one request: Starlette's `CORSMiddleware`, `uuid.UUID`,
-- a new identifier, the metrics, and the time that the request takes; `origin` is the header by
-- which a browser marks a request from another origin
pub record Runtime (S : Type 0) : Type 0 where
  pub cors : Middleware S
  pub origin : Request → Option String
  pub parse_uuid : String → Option ℕ
  pub new_id : String
  pub record_http_request : HttpRecord → S → S
  pub duration : ℕ

module _ {S : Type 0} (runtime : Runtime S) where
  -- the calls of `add_middleware` in `create_app`, in their order
  unfoldable pub user_middleware : List (Middleware S)
  unfolding add_middleware error_dispatch logging_dispatch tenant_dispatch correlation_dispatch
  user_middleware = add_middleware runtime.cors (
      add_middleware (correlation_dispatch runtime.new_id) (
        add_middleware (tenant_dispatch runtime.parse_uuid) (
          add_middleware (logging_dispatch runtime.record_http_request runtime.duration)
            (add_middleware error_dispatch []))))

  unfoldable pub create_app : CallNext (Served S) → CallNext (Served S)
  unfolding build user_middleware
  create_app router = build user_middleware router
