-- ===== src/App/Lifespan/Tests.antt =====
-- The life of a service whose clients count what they open.
use converse_os.Prelude.{ℕ, zero, suc, ◌≡◌, refl, sym, ap, false, Result, ok, raise}
use converse_os.Domain.Exceptions.{Exn, runtime_error}
use converse_os.Application.UseCase.{and_then}
use converse_os.App.Lifespan.{
  Clients, Service, Action, outside_call, initialize_database, close_database, initialize_cache,
  close_cache, initialize_producer, close_producer, startup, shutdown, lifespan,
}
use converse_os.App.Lifespan.Balance.{lifespan-opened}

abbrev up : ℕ → Result Exn (Unit {0}) × ℕ
up n = (ok tt, suc n)

abbrev down : ℕ → Result Exn (Unit {0}) × ℕ
down zero = (raise (runtime_error "closed"), 0)
down (suc n) = (ok tt, n)

abbrev same : ℕ → Result Exn (Unit {0}) × ℕ
same n = (ok tt, n)

up_one : (s s' : ℕ) → up s ≡ (ok tt, s') → s' ≡ suc s
up_one s s' h = ap (λ r. r.1) (sym h)

down_one : (s s' : ℕ) → down s ≡ (ok tt, s') → suc s' ≡ s
down_one zero s' h = cc
down_one (suc n) s' h = ap (λ r. suc r.1) (sym h)

abbrev clients : Clients
clients = record {
  S = ℕ;
  opened = λ n. n;
  create_engine = up;
  dispose = down;
  create_pool = up;
  aclose = same;
  disconnect = down;
  start = up;
  stop = down;
  opened-create_engine = up_one;
  opened-create_pool = up_one;
  opened-start = up_one;
  opened-start_failed = λ s s' e h. cc;
  opened-dispose = down_one;
  opened-aclose = λ s s' h. ap (λ r. r.1) (sym h);
  opened-disconnect = down_one;
  opened-stop = down_one;
}

abbrev service : Service clients
service = record {
  has_engine = false;
  has_redis = false;
  has_pool = false;
  has_producer = false;
  outside = 4;
}

abbrev idle : Action clients
idle v = (ok tt, v)

lifespan_run : (lifespan clients idle service).0 ≡ ok tt
unfolding lifespan startup shutdown initialize_database initialize_cache initialize_producer
    close_database close_cache close_producer outside_call and_then
lifespan_run = refl

lifespan-opened_example : (lifespan clients idle service).1.outside ≡ 4
lifespan-opened_example =
    lifespan-opened clients idle 4 service (λ n v h. h) (refl, refl, refl, refl, refl) lifespan_run
