-- ===== src/App/Lifespan/Steps.antt =====
-- What each call of a manager opens or closes.
use converse_os.Prelude.{
  ℕ, suc, ◌≡◌, refl, ap, ◌∙◌, Bool, true, Result, ok, raise, inl, inr, arith, Result-cases,
}
use converse_os.Domain.Exceptions.{Exn}
use converse_os.Application.UseCase.{and_then}
use converse_os.App.Lifespan.{
  Clients, Service, outside_call, initialize_database, close_database, initialize_cache,
  close_cache, initialize_producer, close_producer,
}

-- the pair of a call that returns
returned : {S : Type 0} (p : Result Exn (Unit {0}) × S) → p.0 ≡ ok tt → p ≡ (ok tt, p.1)
returned p h = ap (λ r. (r, p.1)) h

-- a sequence that returns has gone through its first part
pub and_then_passed :
    {S : Type 0} (r : Result Exn (Unit {0})) (s : S) (k : Unit → S → Result Exn (Unit {0}) × S)
    → (and_then (r, s) k).0 ≡ ok tt
    → (r ≡ ok tt) × (and_then (r, s) k ≡ k tt s)
unfolding and_then
and_then_passed (ok tt) s k h = (refl, refl)
and_then_passed (raise e) s k h = cc

module _ (clients : Clients) where
  open clients use {S, opened}

  -- a service with these fields, of which so many things are opened
  abbrev pub Is : Bool → Bool → Bool → ℕ → Service clients → Type 0
  Is engine pool producer n v =
      (v.has_engine ≡ engine)
      × (v.has_redis ≡ pool)
      × (v.has_pool ≡ pool)
      × (v.has_producer ≡ producer)
      × (opened v.outside ≡ n)

  pub database_up :
      (p : Bool) (q : Bool) (n : ℕ) (b : Bool) (v : Service clients)
      → Is b p q n v
      → (initialize_database clients v).0 ≡ ok tt
      → Is true p q (suc n) (initialize_database clients v).1
  unfolding initialize_database outside_call and_then
  database_up p q n b v (h1, h2, h3, h4, h5) k =
      elim (Result-cases (clients.create_engine v.outside).0) [
        | inl (_, r) ↦ ground (
          arith,
          clients.opened-create_engine v.outside _ (returned (clients.create_engine v.outside) r),
        )
        | inr (e, r) ↦ ground arith
      ]

  pub cache_up :
      (b : Bool) (p : Bool) (q : Bool) (n : ℕ) (v : Service clients)
      → Is b p q n v
      → (initialize_cache clients v).0 ≡ ok tt
      → Is b true q (suc n) (initialize_cache clients v).1
  unfolding initialize_cache outside_call and_then
  cache_up b p q n v (h1, h2, h3, h4, h5) k =
      elim (Result-cases (clients.create_pool v.outside).0) [
        | inl (_, r) ↦ ground (
          arith,
          clients.opened-create_pool v.outside _ (returned (clients.create_pool v.outside) r),
        )
        | inr (e, r) ↦ ground arith
      ]

  pub producer_up :
      (b : Bool) (p : Bool) (q : Bool) (n : ℕ) (v : Service clients)
      → Is b p q n v
      → (initialize_producer clients v).0 ≡ ok tt
      → Is b p true (suc n) (initialize_producer clients v).1
  unfolding initialize_producer outside_call
  producer_up b p q n v (h1, h2, h3, h4, h5) k = (
    h1,
    h2,
    h3,
    refl,
    clients.opened-start v.outside _ (returned (clients.start v.outside) k) ∙ ap (λ m. suc m) h5,
  )

  pub producer_failed :
      (b : Bool) (p : Bool) (q : Bool) (n : ℕ) (e : Exn) (v : Service clients)
      → Is b p q n v
      → (initialize_producer clients v).0 ≡ raise e
      → Is b p true n (initialize_producer clients v).1
  unfolding initialize_producer outside_call
  producer_failed b p q n e v (h1, h2, h3, h4, h5) k = (
    h1,
    h2,
    h3,
    refl,
    clients.opened-start_failed v.outside _ e (ap (λ r. (r, (clients.start v.outside).1)) k) ∙ h5,
  )

  pub producer_down :
      (b : Bool) (p : Bool) (n : ℕ) (v : Service clients)
      → Is b p true (suc n) v
      → (close_producer clients v).0 ≡ ok tt
      → Is b p true n (close_producer clients v).1
  unfolding close_producer outside_call
  producer_down b p n v (h1, h2, h3, h4, h5) k = elim (Result-cases (clients.stop v.outside).0) [
    | inl (_, r) ↦
        ground (arith, clients.opened-stop v.outside _ (returned (clients.stop v.outside) r))
    | inr (e, r) ↦ ground arith
  ]

  pub database_down :
      (p : Bool) (q : Bool) (n : ℕ) (v : Service clients)
      → Is true p q (suc n) v
      → (close_database clients v).0 ≡ ok tt
      → Is true p q n (close_database clients v).1
  unfolding close_database outside_call
  database_down p q n v (h1, h2, h3, h4, h5) k = elim (Result-cases (clients.dispose v.outside).0) [
    | inl (_, r) ↦
        ground (arith, clients.opened-dispose v.outside _ (returned (clients.dispose v.outside) r))
    | inr (e, r) ↦ ground arith
  ]

  pub cache_down :
      (b : Bool) (q : Bool) (n : ℕ) (v : Service clients)
      → Is b true q (suc n) v
      → (close_cache clients v).0 ≡ ok tt
      → Is b true q n (close_cache clients v).1
  unfolding close_cache outside_call and_then
  cache_down b q n v (h1, h2, h3, h4, h5) k =
      let closed = (clients.aclose v.outside).1 in
      elim (Result-cases (clients.aclose v.outside).0) [
        | inr (e, r) ↦ ground arith
        | inl (_, r) ↦ elim (Result-cases (clients.disconnect closed).0) [
          | inl (_, d) ↦ ground (
            arith,
            clients.opened-aclose v.outside _ (returned (clients.aclose v.outside) r),
            clients.opened-disconnect closed _ (returned (clients.disconnect closed) d),
          )
          | inr (e, d) ↦ ground arith
        ]
      ]
