-- ===== src/Infrastructure/Redis.antt =====
-- The sorted sets of a Redis server, which the rate limiter calls: an interface with the documented
-- effect of each command on the score of each member. The server is not part of the repository.
use converse_os.Prelude.{
  ℕ, String, ◌≤◌, ◌≡◌, ◌⊎◌, Option, none, some, List, true, ◌&&◌, ◌==◌, string_eq, contains, length,
  leb, if◌then◌else◌,
}
use converse_os.Prelude.Int.{ℤ, pos, leb_ℤ}

-- a score in the closed range goes, any other stays
abbrev pub outside : ℕ → ℤ → Option ℕ → Option ℕ
outside low high none = none
outside low high (some s) = if leb low s && leb_ℤ (pos s) high then none else some s

pub record SortedSets : Type 1 where
  pub Db : Type 0
  -- ZSCORE key member
  pub zscore : Db → String → String → Option ℕ
  -- ZCARD key
  pub zcard : Db → String → ℕ
  -- ZREMRANGEBYSCORE key low high
  pub zremrangebyscore : Db → String → ℕ → ℤ → Db
  -- ZADD key score member
  pub zadd : Db → String → String → ℕ → Db
  -- EXPIRE key seconds
  pub expire : Db → String → ℕ → Db
  -- What has become of the data when the clock shows the given time: keys may have expired.
  pub lapse : Db → ℕ → Db
  pub zscore-zremrangebyscore :
      (db : Db) (k j m : String) (low : ℕ) (high : ℤ)
      → zscore (zremrangebyscore db k low high) j m
        ≡ (if k == j then outside low high (zscore db j m) else zscore db j m)
  pub zscore-zadd :
      (db : Db) (k j m n : String) (s : ℕ)
      → zscore (zadd db k m s) j n ≡ (if k == j && m == n then some s else zscore db j n)
  pub zscore-expire :
      (db : Db) (k j m : String) (ttl : ℕ) → zscore (expire db k ttl) j m ≡ zscore db j m
  pub zscore-lapse :
      (db : Db) (now : ℕ) (j m : String)
      → (zscore (lapse db now) j m ≡ none) ⊎ (zscore (lapse db now) j m ≡ zscore db j m)
  -- ZCARD counts each member once.
  pub zcard-le :
      (db : Db) (k : String) (ms : List String)
      → ((m : String) (s : ℕ) → zscore db k m ≡ some s → contains m ms ≡ true)
      → zcard db k ≤ length ms
