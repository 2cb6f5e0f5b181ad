-- ===== src/App/Lifespan.antt =====
-- services/auth-service/src/auth_service/main.py: `lifespan`, and what it calls of the three managers:
-- `initialize` and `close` of `DatabaseManager`, `CacheManager` and `KafkaProducerManager`
-- (infrastructure/database.py, cache.py, messaging.py); fastapi.py: `default_lifespan`.
pub mod Steps
pub mod Balance
mod Tests
use converse_os.Prelude.{
  ℕ, suc, ◌≡◌, Option, none, some, Bool, true, false, Result, ok, raise, if◌then◌else◌,
}
use converse_os.Domain.Exceptions.{Exn}
use converse_os.Application.UseCase.{and_then}

-- The clients outside: creating and disposing of an engine, a pool and a producer. `opened` counts
-- what holds connections. What is opened counts once; an opening that raises and the closing of the
-- Redis client, whose pool stays, change nothing.
pub record Clients : Type 1 where
  pub S : Type 0
  pub opened : S → ℕ
  pub create_engine : S → Result Exn (Unit {0}) × S
  pub dispose : S → Result Exn (Unit {0}) × S
  pub create_pool : S → Result Exn (Unit {0}) × S
  pub aclose : S → Result Exn (Unit {0}) × S
  pub disconnect : S → Result Exn (Unit {0}) × S
  pub start : S → Result Exn (Unit {0}) × S
  pub stop : S → Result Exn (Unit {0}) × S
  pub opened-create_engine : (s s' : S) → create_engine s ≡ (ok tt, s') → opened s' ≡ suc (opened s)
  pub opened-create_pool : (s s' : S) → create_pool s ≡ (ok tt, s') → opened s' ≡ suc (opened s)
  pub opened-start : (s s' : S) → start s ≡ (ok tt, s') → opened s' ≡ suc (opened s)
  pub opened-start_failed : (s s' : S) (e : Exn) → start s ≡ (raise e, s') → opened s' ≡ opened s
  pub opened-dispose : (s s' : S) → dispose s ≡ (ok tt, s') → suc (opened s') ≡ opened s
  pub opened-aclose : (s s' : S) → aclose s ≡ (ok tt, s') → opened s' ≡ opened s
  pub opened-disconnect : (s s' : S) → disconnect s ≡ (ok tt, s') → suc (opened s') ≡ opened s
  pub opened-stop : (s s' : S) → stop s ≡ (ok tt, s') → suc (opened s') ≡ opened s

module _ (clients : Clients) where
  open clients use {S}

  -- the fields of the managers that tell whether they are initialized, and the clients
  pub record Service : Type 0 where
    pub has_engine : Bool
    pub has_redis : Bool
    pub has_pool : Bool
    pub has_producer : Bool
    pub outside : S

  -- an action that awaits a manager
  abbrev pub Action : Type 0
  Action = Service → Result Exn (Unit {0}) × Service

  -- a call of a client
  unfoldable pub outside_call : (S → Result Exn (Unit {0}) × S) → Action
  outside_call call v = let (r, s') = call v.outside in (r, record v { outside = s' })

  unfoldable pub initialize_database : Action
  unfolding outside_call and_then
  initialize_database v =
      and_then (outside_call clients.create_engine v)
        (λ _ v'. (ok tt, record v' { has_engine = true }))

  unfoldable pub close_database : Action
  unfolding outside_call
  close_database v = if v.has_engine then outside_call clients.dispose v else (ok tt, v)

  unfoldable pub initialize_cache : Action
  unfolding outside_call and_then
  initialize_cache v =
      and_then (outside_call clients.create_pool v)
        (λ _ v'. (ok tt, record v' { has_redis = true; has_pool = true }))

  unfoldable pub close_cache : Action
  unfolding outside_call and_then
  close_cache v =
      and_then (if v.has_redis then outside_call clients.aclose v else (ok tt, v))
        (λ _ v'. if v'.has_pool then outside_call clients.disconnect v' else (ok tt, v'))

  -- the field is set before the producer is started
  unfoldable pub initialize_producer : Action
  unfolding outside_call
  initialize_producer v = outside_call clients.start (record v { has_producer = true })

  unfoldable pub close_producer : Action
  unfolding outside_call
  close_producer v = if v.has_producer then outside_call clients.stop v else (ok tt, v)

  -- `lifespan` before and after its `yield`
  unfoldable pub startup : Action
  startup v =
      and_then (initialize_database v)
        (λ _ v1. and_then (initialize_cache v1) (λ _. initialize_producer))

  unfoldable pub shutdown : Action
  shutdown v = and_then (close_producer v) (λ _ v1. and_then (close_cache v1) (λ _. close_database))

  -- `default_lifespan` with the service's `lifespan`, around what the application does
  unfoldable pub lifespan : Action → Action
  lifespan serve v = and_then (startup v) (λ _ v1. and_then (serve v1) (λ _. shutdown))
