-- ===== src/App/Stack/Tests.antt =====
-- The theorem on a service whose endpoint raises, with the records of the metrics as its state.
use converse_os.Prelude.{◌≡◌, refl, none, some, List, [], ◌∷◌, string_eq, ok, raise}
use converse_os.Prelude.Dict.{insert}
use converse_os.Domain.Exceptions.{domain, make_entity_not_found}
use converse_os.Security.TenantContext.{TenantContext}
use converse_os.Middleware.ErrorHandler.{respond}
use converse_os.Middleware.Context.{Request, CallNext, Served, given, id_of}
use converse_os.Middleware.RequestLogging.{HttpRecord}
use converse_os.App.Stack.{Runtime, create_app}
use converse_os.App.Stack.Answers.{scoped, create_app-answers}

abbrev runtime : Runtime (List HttpRecord)
runtime = record {
  cors = λ next request ctx s. next request ctx s;
  origin = λ request. none;
  parse_uuid = λ s. some 1;
  new_id = "new";
  record_http_request = λ r rs. r ∷ rs;
  duration = 12;
}

abbrev get_agent : Request
get_agent = record {
  path = "/api/v1/agents/7";
  method = "GET";
  client_host = some "10.0.0.1";
  correlation_id = none;
  tenant_id = some "t-1";
  user_id = none;
  roles = none;
  current_user = none;
}

abbrev no_context : TenantContext
no_context = record { tenant_id = none; user_id = none; correlation_id = none; roles = [] }

abbrev missing : CallNext (Served (List HttpRecord))
missing r ctx s = (raise (domain (make_entity_not_found "Agent" "7" [])), s)

create_app-answers_example :
    let ctx' = scoped runtime get_agent no_context in
    let (outcome, s') = missing get_agent ctx' [] in
    let response = respond outcome in
    create_app runtime missing get_agent no_context [] ≡ (
      ok (record response {
        headers = insert "X-Correlation-ID" (id_of "new" (given none)) response.headers;
      }),
      record {
        endpoint = "/api/v1/agents/7";
        method = "GET";
        status = response.status_code;
        duration = 12;
        tenant_id = ctx'.tenant_id;
      }
          ∷ [],
    )
create_app-answers_example =
    create_app-answers runtime missing get_agent no_context [] (λ next request ctx s plain. refl)
      refl
