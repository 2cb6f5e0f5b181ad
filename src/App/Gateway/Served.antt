-- ===== src/App/Gateway/Served.antt =====
-- What the clients of the gateway get over any sequence of requests.
use mathlib.Core.Path.{subst}
use converse_os.Prelude.{
  none, ℕ, ◌≡◌, ◌≤◌, ◌<◌, sym, ap, ◌∙◌, inl, inr, List, [], ◌∷◌, All, Bool, true, false, Result, ok,
}
use converse_os.Domain.Exceptions.{Exn}
use converse_os.Infrastructure.Redis.{SortedSets}
use converse_os.Security.TenantContext.{TenantContext}
use converse_os.Middleware.ErrorHandler.{Response}
use converse_os.Middleware.Context.{Request, CallNext, Served}
use converse_os.Middleware.RequestLogging.{HttpRecord}
use converse_os.Middleware.RateLimiter.{Limiter, client_id}
use converse_os.Middleware.RateLimiter.Guard.{dispatch-cases}
use converse_os.Middleware.RateLimiter.Window.{
  IsStamped, IsFresh, IsStamped-of_IsFresh, lapse-IsStamped, is_rate_limited-passes,
}
use converse_os.App.Stack.{Runtime, create_app}
use converse_os.App.Stack.Answers.{LeavesPlain, create_app-answers}
use converse_os.App.Gateway.Limits.{limiter_view, gateway_app}

-- a request as it reaches the gateway: the clock, and whether Redis answers
pub record Arrival : Type 0 where
  pub now : ℕ
  pub reachable : Bool
  pub request : Request

-- the clock never goes back, from `t` on
abbrev pub IsRising : ℕ → List Arrival → Type 0
IsRising t [] = Unit
IsRising t (a ∷ rest) = (t ≤ a.now) × IsRising a.now rest

module _ {S : Type 0} (z : SortedSets) (l : Limiter) where
  open z use {Db, lapse}

  module _ (runtime : Runtime (Db × S)) (router : CallNext (Served (Db × S)))
      (ctx : TenantContext) where
    -- the answers of the gateway, each request in the state that the one before it leaves
    abbrev pub serve : List Arrival → Db × S → List (Arrival × Result Exn Response)
    serve [] state = []
    serve (a ∷ rest) (db, s) =
        let (outcome, state') =
          gateway_app z l runtime router a.now a.reachable a.request ctx (lapse db a.now, s) in
        (a, outcome) ∷ serve rest state'

    -- The request has a response, and it is the one that the application of `create_app` gives to it
    -- in some state of the services, so not one of the limiter.
    abbrev pub IsAnswered : Arrival × Result Exn Response → Type 0
    IsAnswered (a, outcome) =
        (state : Db × S) × (outcome ≡ (create_app runtime router a.request ctx state).0)
        × ((response : Response) × (outcome ≡ ok response))

    abbrev pub IsPlain : Arrival → Type 0
    IsPlain a = runtime.origin a.request ≡ none

    -- The routes and the metrics do not touch the store of the limiter.
    abbrev pub LeaveStore : Type 0
    LeaveStore =
        ((request : Request) (context : TenantContext) (state : Db × S)
          → (router request context state).1.0 ≡ state.0)
        × ((r : HttpRecord) (state : Db × S) → (runtime.record_http_request r state).0 ≡ state.0)

    answered :
        (a : Arrival) (state : Db × S) (outcome : Result Exn Response × (Db × S))
        → LeavesPlain runtime
        → IsPlain a
        → LeaveStore
        → outcome ≡ create_app runtime router a.request ctx state
        → IsAnswered (a, outcome.0) × (outcome.1.0 ≡ state.0)
    answered a state outcome open_to plain leaves runs =
        let formula = runs ∙ create_app-answers runtime router a.request ctx state open_to plain in
        (
          (state, ap (λ o. o.0) runs, (_, ap (λ o. o.0) formula)),
          ap (λ o. o.1.0) formula ∙ leaves.1 _ _ ∙ leaves.0 a.request _ state,
        )

    gateway_app-IsStamped :
        (a : Arrival) (db : Db) (s : S)
        → LeavesPlain runtime
        → IsPlain a
        → LeaveStore
        → l.window_seconds < l.default_limit
        → IsStamped z a.now db
        → let outcome = gateway_app z l runtime router a.now a.reachable a.request ctx (db, s) in
          IsAnswered (a, outcome.0) × IsStamped z a.now outcome.1.0
    unfolding gateway_app
    gateway_app-IsStamped a db s open_to plain leaves h i =
        let (passes, kept) =
          is_rate_limited-passes z l (client_id (limiter_view a.request)) a.now a.reachable db h
            i in
        elim (dispatch-cases z l (λ _ state. create_app runtime router a.request ctx state) a.now
          a.reachable (limiter_view a.request) db s) [
            | inl (_, runs) ↦
                let (answer, same) = answered a (db, s) _ open_to plain leaves runs in
                (answer, subst (IsStamped z a.now) (sym same) i)
            | inr (inl (_, _, runs)) ↦
                let (answer, same) = answered a (_, s) _ open_to plain leaves runs in
                (answer, subst (IsStamped z a.now) (sym same) kept)
            | inr (inr (_, limited, _)) ↦ absurd (true_is_not_false (sym limited ∙ passes))
          ]
      where
        true_is_not_false : Path Bool true false → ⊥
        true_is_not_false e = cc

    serve-IsAnswered_from :
        (t : ℕ) (rest : List Arrival) (db : Db) (s : S)
        → LeavesPlain runtime
        → LeaveStore
        → All IsPlain rest
        → l.window_seconds < l.default_limit
        → IsRising t rest
        → IsStamped z t db
        → All IsAnswered (serve rest (db, s))
    serve-IsAnswered_from t [] db s open_to leaves p h r i = tt
    serve-IsAnswered_from t (a ∷ rest) db s open_to leaves (plain, p) h (later, r) i =
        let (answer, kept) =
          gateway_app-IsStamped a (lapse db a.now) s open_to plain leaves h
            (lapse-IsStamped z t a.now db later i) in
        (answer, serve-IsAnswered_from a.now rest _ _ open_to leaves p h r kept)

    -- Every request of any sequence without the Origin header gets the response that the application
    -- of `create_app` gives to it, and the limiter refuses none of them: with
    -- a limit above the number of seconds in the window, as it has, from a store without members of
    -- the limiter and with a clock that does not go back, whatever the routes return or raise and
    -- whenever Redis fails. The CORS middleware leaves such requests as they are, and neither the routes nor the
    -- metrics touch the store of the limiter.
    pub serve-IsAnswered :
        (rest : List Arrival) (db : Db) (s : S)
        → LeavesPlain runtime
        → LeaveStore
        → All IsPlain rest
        → l.window_seconds < l.default_limit
        → IsRising 0 rest
        → IsFresh z db
        → All IsAnswered (serve rest (db, s))
    serve-IsAnswered rest db s open_to leaves p h r f =
        serve-IsAnswered_from 0 rest db s open_to leaves p h r (IsStamped-of_IsFresh z 0 db f)
