-- ===== src/Middleware/RateLimiter/Tests.antt =====
-- Runs of the limiter on the concrete sorted sets, and instances of its theorems.
use text.Mathlib.TextEquality.{eq_iff}
use converse_os.Prelude.{
  ℕ, String, ◌≡◌, refl, ◌≢◌, none, some, [], ◌∷◌, true, false, All, Result, ok, arith, contains,
}
use converse_os.Prelude.Decimal.{decimal}
use converse_os.Prelude.Counting.{distinct}
use converse_os.Domain.Exceptions.{Exn}
use converse_os.Middleware.RateLimiter.{Limiter, Request, is_rate_limited}
use converse_os.Middleware.RateLimiter.Example.{Table, card, redis, empty}
use converse_os.Middleware.RateLimiter.Window.{Visit, answers, never_limited}

-- the defaults of the constructor
abbrev defaults : Limiter
defaults = record { default_limit = 100; window_seconds = 60 }

abbrev tight : Limiter
tight = record { default_limit = 2; window_seconds = 5 }

abbrev at_second : ℕ → Visit
at_second n = record { client = "c"; now = n; reachable = true }

-- Four requests in one second count as one; a third second within five is refused.
counts_seconds :
    answers redis tight
      (at_second 7 ∷ at_second 7 ∷ at_second 7 ∷ at_second 8 ∷ at_second 9 ∷ at_second 30 ∷ [])
      empty
    ≡ false ∷ false ∷ false ∷ false ∷ true ∷ false ∷ []
unfolding answers is_rate_limited card distinct contains decimal
counts_seconds = refl

never_limited_example :
    All
      (λ b. b ≡ false)
      (answers redis defaults (at_second 7 ∷ at_second 7 ∷ at_second 8 ∷ []) empty)
never_limited_example =
    never_limited redis defaults (at_second 7 ∷ at_second 7 ∷ at_second 8 ∷ []) empty (omega arith)
      (omega arith) (λ client m. refl)

a_not_b : ◌≢◌ {A = String} "a" "b"
a_not_b = ground (arith, eq_iff "a" "b")

abbrev probe : Request
probe = record { path = "/api"; user_id_header = none; client_host = some "10.0.0.1" }

abbrev app : Request → Table × ℕ → Result Exn ℕ × (Table × ℕ)
app r db = (ok 200, db)
