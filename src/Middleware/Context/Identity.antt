-- ===== src/Middleware/Context/Identity.antt =====
-- Who a request is for, by its headers.
use converse_os.Prelude.{
  ◌≡◌, refl, ap, ◌∙◌, String, Option, none, some, Result, string_eq, ◌≢◌, ==_iff, arith,
}
use converse_os.Prelude.{ok, raise, sym}
use converse_os.Middleware.ErrorHandler.{Response}
use converse_os.Prelude.Dict.{lookup, lookup-insert_self}
use converse_os.Domain.Exceptions.{Exn}
use converse_os.Security.TenantContext.{TenantContext, set_correlation_id}
use converse_os.Middleware.Context.{
  Request, CallNext, given, id_of, correlation_dispatch, with_header, Served,
}

given-kept : (new_id s : String) → s ≢ "" → id_of new_id (given (some s)) ≡ s
unfolding given id_of
given-kept new_id s h = ground (arith, ==_iff s "")

given-none : (new_id : String) → id_of new_id (given none) ≡ new_id
unfolding given id_of
given-none new_id = refl

-- the header of a response
header_of : String → Result Exn Response → Option String
header_of name (ok r) = lookup name r.headers
header_of name (raise e) = none

with_header-lookup :
    (name value : String) (o : Result Exn Response) (r : Response)
    → with_header name value o ≡ ok r
    → lookup name r.headers ≡ some value
unfolding with_header header_of
with_header-lookup name value (ok response) r h =
    ap (λ o. header_of name o) (sym h) ∙ lookup-insert_self name value response.headers
with_header-lookup name value (raise e) r h = cc

-- A response carries the identifier that the handlers saw in the context, and it is the one that
-- the caller sent, if it sent one that is not empty, and the new one otherwise.
pub correlation_dispatch-agrees :
    {S : Type 0} (new_id : String) (call_next : CallNext (Served S)) (request : Request)
    (ctx : TenantContext) (s : S)
    → let id = id_of new_id (given request.correlation_id) in
      ((r : Response)
        → (correlation_dispatch new_id call_next request ctx s).0 ≡ ok r
        → lookup "X-Correlation-ID" r.headers ≡ some id)
      × ((correlation_dispatch new_id call_next request ctx s).1
          ≡ (call_next request (record ctx { correlation_id = some id }) s).1)
      × ((sent : String) → request.correlation_id ≡ some sent → sent ≢ "" → id ≡ sent)
      × (request.correlation_id ≡ none → id ≡ new_id)
unfolding correlation_dispatch set_correlation_id
correlation_dispatch-agrees new_id call_next request ctx s = (
  λ r h. with_header-lookup _ _ _ r h,
  refl,
  λ sent same filled. ap (λ o. id_of new_id (given o)) same ∙ given-kept new_id sent filled,
  λ missing. ap (λ o. id_of new_id (given o)) missing ∙ given-none new_id,
)
