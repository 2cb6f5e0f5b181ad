-- ===== src/App/Stack/Answers.antt =====
-- What a client of a service gets, whatever the endpoint does.
use converse_os.Prelude.{◌≡◌, none, some, string_eq, ok}
use converse_os.Prelude.Dict.{insert}
use converse_os.Security.TenantContext.{TenantContext, set_correlation_id}
use converse_os.Middleware.ErrorHandler.{respond}
use converse_os.Middleware.Context.{
  Request, CallNext, Served, given, id_of, with_tenant, header_id, with_header,
}
use converse_os.App.Stack.{Runtime, create_app}

-- the context in which the endpoint runs
abbrev pub scoped : {S : Type 0} → Runtime S → Request → TenantContext → TenantContext
scoped runtime request ctx =
    with_tenant (header_id runtime.parse_uuid request.tenant_id)
      (record ctx { correlation_id = some (id_of runtime.new_id (given request.correlation_id)) })

-- `CORSMiddleware` hands a request without the Origin header to the application as it is. To one with
-- this header it adds headers, and it answers a preflight request by itself.
abbrev pub LeavesPlain : {S : Type 0} → Runtime S → Type 0
LeavesPlain {S} runtime =
    (next : CallNext (Served S)) (request : Request) (ctx : TenantContext) (s : S)
    → runtime.origin request ≡ none
    → runtime.cors next request ctx s ≡ next request ctx s

-- Whatever the endpoint returns or raises, the application returns a response and raises nothing, for
-- a request without the Origin header, which the CORS middleware leaves as it is: it is the response of the error handler, with the
-- header of the correlation identifier, and the metrics have one record, with the status of this
-- response and the tenant of the request.
pub create_app-answers :
    {S : Type 0} (runtime : Runtime S) (router : CallNext (Served S)) (request : Request)
    (ctx : TenantContext) (s : S)
    → LeavesPlain runtime
    → runtime.origin request ≡ none
    → let ctx' = scoped runtime request ctx in
      let (outcome, s') = router request ctx' s in
      let response = respond outcome in
      create_app runtime router request ctx s ≡ (
        ok (record response {
          headers =
              insert "X-Correlation-ID"
                (id_of runtime.new_id (given request.correlation_id))
                response.headers;
        }),
        runtime.record_http_request
            (record {
              endpoint = request.path;
              method = request.method;
              status = response.status_code;
              duration = runtime.duration;
              tenant_id = ctx'.tenant_id;
            })
            s',
      )
unfolding create_app with_header set_correlation_id
create_app-answers runtime router request ctx s leaves_plain plain =
    leaves_plain _ request ctx s plain
