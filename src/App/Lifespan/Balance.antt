-- ===== src/App/Lifespan/Balance.antt =====
-- What is opened and closed over the life of a service.
use mathlib.Core.Path.{subst}
use converse_os.Prelude.{ℕ, suc, ◌≡◌, refl, sym, ap, ◌∙◌, true, false, ok, raise}
use converse_os.Domain.Exceptions.{Exn}
use converse_os.Application.UseCase.{and_then}
use converse_os.App.Lifespan.{
  Clients, Service, Action, initialize_database, initialize_cache, close_cache, initialize_producer,
  close_producer, startup, shutdown, lifespan,
}
use converse_os.App.Lifespan.Steps.{
  and_then_passed, Is, database_up, cache_up, producer_up, producer_failed, producer_down,
  database_down, cache_down,
}

module _ (clients : Clients) where
  open clients use {S, opened}

  startup_up :
      (n : ℕ) (v : Service clients)
      → Is clients false false false n v
      → (startup clients v).0 ≡ ok tt
      → Is clients true true true (suc (suc (suc n))) (startup clients v).1
  unfolding startup
  startup_up n v fresh h =
      let first = initialize_database clients v in
      let (db, e1) = and_then_passed first.0 first.1 _ h in
      let second = initialize_cache clients first.1 in
      let (pool, e2) = and_then_passed second.0 second.1 _ (sym (ap (λ r. r.0) e1) ∙ h) in
      let whole = e1 ∙ e2 in
      subst (λ r. Is clients true true true (suc (suc (suc n))) r.1) (sym whole)
        (producer_up clients true true false (suc (suc n)) second.1
          (cache_up clients true false false (suc n) first.1
            (database_up clients false false n false v fresh db) pool)
          (sym (ap (λ r. r.0) whole) ∙ h))

  shutdown_down :
      (n : ℕ) (v : Service clients)
      → Is clients true true true (suc (suc (suc n))) v
      → (shutdown clients v).0 ≡ ok tt
      → Is clients true true true n (shutdown clients v).1
  unfolding shutdown
  shutdown_down n v up h =
      let first = close_producer clients v in
      let (producer, e1) = and_then_passed first.0 first.1 _ h in
      let second = close_cache clients first.1 in
      let (pool, e2) = and_then_passed second.0 second.1 _ (sym (ap (λ r. r.0) e1) ∙ h) in
      let whole = e1 ∙ e2 in
      subst (λ r. Is clients true true true n r.1) (sym whole)
        (database_down clients true true n second.1
          (cache_down clients true true (suc n) first.1
            (producer_down clients true true (suc (suc n)) v up producer) pool)
          (sym (ap (λ r. r.0) whole) ∙ h))

  -- The application opens and closes nothing of its managers.
  abbrev pub Serves : Action clients → Type 0
  Serves serve =
      (n : ℕ) (v : Service clients)
      → Is clients true true true n v
      → Is clients true true true n (serve v).1

  -- A service whose life ends without an exception has closed what it has opened: as many engines,
  -- pools and producers are open as before its start. None of the managers was initialized before, and the
  -- application leaves them and what is open as they are.
  pub lifespan-opened :
      (serve : Action clients) (n : ℕ) (v : Service clients)
      → Serves serve
      → Is clients false false false n v
      → (lifespan clients serve v).0 ≡ ok tt
      → opened (lifespan clients serve v).1.outside ≡ n
  unfolding lifespan
  lifespan-opened serve n v serves fresh h =
      let first = startup clients v in
      let (up, e1) = and_then_passed first.0 first.1 _ h in
      let second = serve first.1 in
      let (served, e2) = and_then_passed second.0 second.1 _ (sym (ap (λ r. r.0) e1) ∙ h) in
      let whole = e1 ∙ e2 in
      let (_, _, _, _, same) =
        shutdown_down n second.1 (serves (suc (suc (suc n))) first.1 (startup_up n v fresh up))
          (sym (ap (λ r. r.0) whole) ∙ h) in
      ap (λ r. opened r.1.outside) whole ∙ same

  after_raise :
      (first : Action clients) (next : Action clients) (e : Exn) (v : Service clients)
      → (first v).0 ≡ raise e
      → and_then (first v) (λ _. next) ≡ (raise e, (first v).1)
  unfolding and_then
  after_raise first next e v h = ap (λ r. and_then (r, (first v).1) (λ _. next)) h

  -- If the producer cannot be started, after the other two, the service raises this exception and
  -- nothing is closed: an engine and a pool more are open than before the start.
  pub lifespan_leaks :
      (serve : Action clients) (n : ℕ) (e : Exn) (v : Service clients)
      → Is clients false false false n v
      → let v1 = (initialize_database clients v).1 in
        let v2 = (initialize_cache clients v1).1 in
        (initialize_database clients v).0 ≡ ok tt
        → (initialize_cache clients v1).0 ≡ ok tt
        → (initialize_producer clients v2).0 ≡ raise e
        → ((lifespan clients serve v).0 ≡ raise e)
          × (opened (lifespan clients serve v).1.outside ≡ suc (suc n))
  unfolding lifespan startup and_then
  lifespan_leaks serve n e v fresh db pool failed =
      let v1 = (initialize_database clients v).1 in
      let v2 = (initialize_cache clients v1).1 in
      let (_, _, _, _, two) =
        producer_failed clients true true false (suc (suc n)) e v2
          (cache_up clients true false false (suc n) v1
            (database_up clients false false n false v fresh db) pool)
          failed in
      rw (db, pool, failed) (refl, two)
