-- ===== src/App/Gateway/Limits.antt =====
-- The application of main.py: the limiter is added after the middlewares of `create_app`, so it
-- stands around them.
use converse_os.Prelude.{ℕ, ◌≡◌, ap, ◌∙◌, none, ◌⊎◌, inl, inr, Bool, true, false, Result, ok}
use converse_os.Domain.Exceptions.{Exn}
use converse_os.Infrastructure.Redis.{SortedSets}
use converse_os.Security.TenantContext.{TenantContext}
use converse_os.Middleware.ErrorHandler.{Response}
use converse_os.Middleware.Context.{Request, CallNext, Served}
use converse_os.Middleware.RateLimiter
use converse_os.Middleware.RateLimiter.{Limiter, client_id, is_rate_limited}
use converse_os.Middleware.RateLimiter.Guard.{is_internal, TooMany, dispatch-cases}
use converse_os.App.Stack.{Runtime, create_app}
use converse_os.App.Stack.Answers.{LeavesPlain, create_app-answers}

-- what the limiter reads of the request
abbrev pub limiter_view : Request → RateLimiter.Request
limiter_view request = record {
  path = request.path;
  user_id_header = request.user_id;
  client_host = request.client_host;
}

module _ {S : Type 0} (z : SortedSets) (l : Limiter) where
  open z use {Db}

  -- `app`, for a request at the time `now`
  unfoldable pub gateway_app :
      Runtime (Db × S)
      → CallNext (Served (Db × S))
      → ℕ
      → Bool
      → Request
      → TenantContext
      → Served (Db × S)
  unfolding create_app RateLimiter.dispatch
  gateway_app runtime router now reachable request ctx (db, s) =
      RateLimiter.dispatch z l (λ _ state. create_app runtime router request ctx state) now
        reachable (limiter_view request) (db, s)

  -- the outcome is what the application gives in this state, and it is a response
  abbrev pub IsAnswer :
      Runtime (Db × S)
      → CallNext (Served (Db × S))
      → Request
      → TenantContext
      → Db × S
      → Result Exn Response × (Db × S)
      → Type 0
  IsAnswer runtime router request ctx state outcome =
      (outcome ≡ create_app runtime router request ctx state)
      × ((response : Response) × (outcome.0 ≡ ok response))

  -- A request without the Origin header, which the CORS middleware leaves as it is. If it is for an
  -- internal path, it gets what the application of `create_app` gives, which is a response, and is not
  -- counted. If the limiter, which counts any other, answers no, it gets the same. If the limiter
  -- answers yes, the exception of the limiter leaves the gateway as it is: it does not pass the error
  -- handler, so there is no response with status 429, no correlation identifier and no record in the
  -- metrics.
  pub gateway_app-cases :
      (runtime : Runtime (Db × S)) (router : CallNext (Served (Db × S))) (now : ℕ)
      (reachable : Bool) (request : Request) (ctx : TenantContext) (db : Db) (s : S)
      → LeavesPlain runtime
      → runtime.origin request ≡ none
      → let (limited, db') =
          is_rate_limited z l (client_id (limiter_view request)) now reachable db in
        let outcome = gateway_app runtime router now reachable request ctx (db, s) in
        (is_internal (limiter_view request) ≡ false)
          × (limited ≡ true)
          × TooMany l.window_seconds (db', s) outcome
        ⊎ (is_internal (limiter_view request) ≡ true)
          × IsAnswer runtime router request ctx (db, s) outcome
        ⊎ (is_internal (limiter_view request) ≡ false)
          × (limited ≡ false)
          × IsAnswer runtime router request ctx (db', s) outcome
  unfolding gateway_app
  gateway_app-cases runtime router now reachable request ctx db s leaves_plain plain =
      elim (dispatch-cases z l (λ _ state. create_app runtime router request ctx state) now
        reachable (limiter_view request) db s) [
          | inl (internal, runs) ↦ inr (inl (internal, (runs, answered (db, s) runs)))
          | inr (inl (counted, passed, runs)) ↦
              inr (inr (counted, passed, (runs, answered (_, s) runs)))
          | inr (inr refused) ↦ inl refused
        ]
    where
      answered :
          {outcome : Result Exn Response × (Db × S)} (state : Db × S)
          → outcome ≡ create_app runtime router request ctx state
          → (response : Response) × (outcome.0 ≡ ok response)
      answered state runs = (
        _,
        ap (λ o. o.0)
            (runs ∙ create_app-answers runtime router request ctx state leaves_plain plain),
      )
