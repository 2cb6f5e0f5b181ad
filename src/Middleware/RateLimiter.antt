-- ===== src/Middleware/RateLimiter.antt =====
-- middleware/rate_limiter.py: the sliding window on a Redis sorted set, and the guard of a request.
-- The clock and the server's reachability are inputs of each request.
pub mod Window
pub mod Guard
pub mod Example
mod Tests
use Prim.Native.String.{◌++◌}
use converse_os.Prelude.{
  ℕ, String, Option, none, some, List, [], ◌∷◌, Bool, true, false, ◌||◌, ◌==◌, string_eq, leb,
  if◌then◌else◌, Result, ok, raise,
}
use converse_os.Prelude.Int.{sub_ℕ}
use converse_os.Prelude.Decimal.{decimal}
use converse_os.Domain.Exceptions.{Exn, domain, make_rate_limit_exceeded}
use converse_os.Infrastructure.Redis.{SortedSets}

-- `RateLimiterMiddleware`'s own fields
pub record Limiter : Type 0 where
  pub default_limit : ℕ
  pub window_seconds : ℕ

-- what `dispatch` reads of a request
pub record Request : Type 0 where
  pub path : String
  pub user_id_header : Option String
  pub client_host : Option String

-- `a or b` on texts: a missing or empty header is false
abbrev or_else : Option String → String → String
or_else none b = b
or_else (some a) b = if a == "" then b else a

-- `(header or host) if request.client else "unknown"`
unfoldable pub client_id : Request → String
client_id r = elim r.client_host [ none ↦ "unknown" | some host ↦ or_else r.user_id_header host ]

-- `f"rate_limit:{client_id}"`
unfoldable pub limit_key : String → String
limit_key client = "rate_limit:" ++ client

module _ (z : SortedSets) where
  open z use {Db, zcard, zremrangebyscore, zadd, expire}

  -- the pipeline without its count
  unfoldable pub record_request : Limiter → String → ℕ → Db → Db
  unfolding limit_key
  record_request l client now db =
      let key = limit_key client in
      let trimmed = zremrangebyscore db key 0 (sub_ℕ now l.window_seconds) in
      expire (zadd trimmed key (decimal now) now) key l.window_seconds

  -- `results[1]`, which the pipeline takes between the removal and the addition
  unfoldable pub request_count : Limiter → String → ℕ → Db → ℕ
  unfolding limit_key
  request_count l client now db =
      let key = limit_key client in
      zcard (zremrangebyscore db key 0 (sub_ℕ now l.window_seconds)) key

  -- `_is_rate_limited`; an exception of the client is logged and answered by `False`
  unfoldable pub is_rate_limited : Limiter → String → ℕ → Bool → Db → Bool × Db
  unfolding record_request request_count
  is_rate_limited l client now false db = (false, db)
  is_rate_limited l client now true db =
      (leb l.default_limit (request_count l client now db), record_request l client now db)

  -- `dispatch`: the rest of the application acts on the database and on a state of its own
  unfoldable pub dispatch {ℓ} :
      {A : Type ℓ} {S : Type 0}
      → Limiter
      → (Request → Db × S → Result Exn A × (Db × S))
      → ℕ
      → Bool
      → Request
      → Db × S
      → Result Exn A × (Db × S)
  unfolding client_id
  dispatch l call_next now reachable r (db, s) =
      if r.path == "/health" || r.path == "/metrics"
      then call_next r (db, s)
      else (let (limited, db') = is_rate_limited l (client_id r) now reachable db in
          if limited
          then (
            raise (
                domain (
                  make_rate_limit_exceeded l.default_limit l.window_seconds (some l.window_seconds)
                    [])),
            (db', s),
          )
          else call_next r (db', s))
