-- ===== src/Middleware/RateLimiter/Guard.antt =====
-- How `dispatch` treats a request: what it lets through, and what a refusal carries.
use converse_os.Prelude.{
  ℕ, ◌≡◌, refl, ◌⊎◌, inl, inr, some, Bool, true, false, ◌||◌, ◌==◌, string_eq, Bool-cases, Result,
  raise,
}
use converse_os.Domain.Exceptions.{Exn, domain, rate_limit_exceeded, make_rate_limit_exceeded}
use converse_os.Infrastructure.Redis.{SortedSets}
use converse_os.Middleware.RateLimiter.{Limiter, Request, client_id, is_rate_limited, dispatch}

-- An outcome that is the refusal of a limiter with this window, and leaves this database.
abbrev pub TooMany {ℓ} : {A : Type ℓ} {D : Type 0} → ℕ → D → Result Exn A × D → Type 0
TooMany window db (raise (domain e), db') =
    (e.class ≡ rate_limit_exceeded)
    × (e.error_code ≡ "RATE_LIMIT_EXCEEDED")
    × (e.retry_after ≡ some window)
    × (db' ≡ db)
TooMany window db _ = ⊥

abbrev pub is_internal : Request → Bool
is_internal r = r.path == "/health" || r.path == "/metrics"

module _ {ℓ} (z : SortedSets) {A : Type ℓ} {S : Type 0} (l : Limiter) where
  open z use {Db}

  -- The health and metrics paths reach the application and are not counted. Any other request is
  -- counted, and then reaches the application if the limiter answers no, also when the server
  -- cannot be reached; if it answers yes the application does not run, and the error raised names
  -- the window as the time to wait.
  pub dispatch-cases :
      (call_next : Request → Db × S → Result Exn A × (Db × S)) (now : ℕ) (reachable : Bool)
      (r : Request) (db : Db) (s : S)
      → let (limited, db') = is_rate_limited z l (client_id r) now reachable db in
        let outcome = dispatch z l call_next now reachable r (db, s) in
        (is_internal r ≡ true) × (outcome ≡ call_next r (db, s))
        ⊎ ((is_internal r ≡ false) × (limited ≡ false) × (outcome ≡ call_next r (db', s)))
        ⊎ ((is_internal r ≡ false) × (limited ≡ true) × TooMany l.window_seconds (db', s) outcome)
  unfolding dispatch make_rate_limit_exceeded
  dispatch-cases call_next now reachable r db s = elim (Bool-cases (is_internal r)) [
    | inl internal ↦ inl (internal, rw internal)
    | inr counted ↦ elim (Bool-cases (is_rate_limited z l (client_id r) now reachable db).0) [
      | inl refused ↦ inr (inr (counted, refused, rw (counted, refused) (refl, refl, refl, refl)))
      | inr passed ↦ inr (inl (counted, passed, rw (counted, passed)))
    ]
  ]
