-- ===== src/Middleware/RateLimiter/Window.antt =====
-- What the sliding window counts: the members of the sorted set are whole seconds.
use text.Mathlib.TextLemmas.{append_cancel_left}
use converse_os.Prelude.{
  ◌≢◌, ℕ, zero, suc, String, ◌-◌, ◌+◌, ◌≤◌, ◌<◌, ◌≡◌, refl, sym, ap, ◌∙◌, ◌⊎◌, inl, inr, Option,
  none, some, List, [], ◌∷◌, Bool, true, false, ◌&&◌, ◌==◌, ==_iff, ==_refl, string_eq, nat_eq,
  contains, length, All, if◌then◌else◌, Bool-cases, arith,
}
use converse_os.Prelude.Int.{sub_ℕ}
use converse_os.Prelude.Decimal.{decimal}
use converse_os.Infrastructure.Redis.{SortedSets, outside}
use converse_os.Middleware.RateLimiter.{
  Limiter, limit_key, record_request, request_count, is_rate_limited,
}

-- the members of the last `w` seconds up to `now`
abbrev recent : ℕ → ℕ → List String
recent now zero = []
recent now (suc w) = decimal now ∷ recent (now - 1) w

length-recent : (now w : ℕ) → length (recent now w) ≡ w
length-recent now zero = refl
length-recent now (suc w) = ap suc (length-recent (now - 1) w)

contains-recent : (s now w : ℕ) → s ≤ now → now < s + w → contains (decimal s) (recent now w) ≡ true
unfolding contains
contains-recent s now zero h k = absurd (omega arith)
contains-recent s now (suc w) h k = elim (Bool-cases (s == now)) [
  | inl same ↦ ground (arith, ==_iff (decimal s) (decimal now))
  | inr older ↦ ground (arith, contains-recent s (now - 1) w)
]

-- what is left after the removal is inside the window
outside-some :
    (now w : ℕ) (o : Option ℕ) (s : ℕ)
    → outside 0 (sub_ℕ now w) o ≡ some s
    → (o ≡ some s) × (now < s + w)
outside-some now w none s h = cc
outside-some now w (some r) s h = ground arith

-- A request as the limiter meets it: who asks, what the clock shows, whether the server answers.
pub record Visit : Type 0 where
  pub client : String
  pub now : ℕ
  pub reachable : Bool

-- the clock never goes back, from `t` on
abbrev pub Rising : ℕ → List Visit → Type 0
Rising t [] = Unit
Rising t (v ∷ vs) = (t ≤ v.now) × Rising v.now vs

limit_key-ne : (a b : String) → a ≢ b → (limit_key a == limit_key b) ≡ false
unfolding limit_key
limit_key-ne a b h = elim (Bool-cases (limit_key a == limit_key b)) [
  | inl same ↦ absurd (h (append_cancel_left "rate_limit:" a b ((==_iff _ _).0 same)))
  | inr other ↦ other
]

module _ (z : SortedSets) where
  open z use {Db, zscore, zcard, zremrangebyscore, zadd, expire, lapse}

  -- Under the limiter's keys every member is the second of its score, which is not in the future.
  pub record IsStamped (t : ℕ) (db : Db) : Type 0 where
    pub member :
        (client m : String) (s : ℕ) → zscore db (limit_key client) m ≡ some s → m ≡ decimal s
    pub past : (client m : String) (s : ℕ) → zscore db (limit_key client) m ≡ some s → s ≤ t

  -- nothing is stored under the limiter's keys
  abbrev pub IsFresh : Db → Type 0
  IsFresh db = (client m : String) → zscore db (limit_key client) m ≡ none

  pub IsStamped-of_IsFresh : (t : ℕ) (db : Db) → IsFresh db → IsStamped t db
  IsStamped-of_IsFresh t db h = record {
    member = λ c m s e. cc (h c m);
    past = λ c m s e. grind (arith, h);
  }

  pub lapse-IsStamped :
      (t now : ℕ) (db : Db) → t ≤ now → IsStamped t db → IsStamped now (lapse db now)
  lapse-IsStamped t now db h i = record {
    member = λ c m s e. i.member c m s (kept c m s e);
    past = λ c m s e. omega (arith, i.past c m s (kept c m s e));
  }
    where
      kept :
          (c m : String) (s : ℕ)
          → zscore (lapse db now) (limit_key c) m ≡ some s
          → zscore db (limit_key c) m ≡ some s
      kept c m s e = elim (z.zscore-lapse db now (limit_key c) m) [
        | inl gone ↦ cc
        | inr same ↦ sym same ∙ e
      ]

  -- the score of a member after one more request
  zscore-record_request :
      (l : Limiter) (client j m : String) (now : ℕ) (db : Db)
      → zscore (record_request z l client now db) j m ≡ (
          if limit_key client == j && decimal now == m
          then some now
          else if limit_key client == j
          then outside 0 (sub_ℕ now l.window_seconds) (zscore db j m)
          else zscore db j m)
  unfolding record_request
  zscore-record_request l client j m now db =
      simp (z.zscore-expire, z.zscore-zadd, z.zscore-zremrangebyscore)

  -- after a request a member is the one that it added, or was there before
  record_request-origin :
      (l : Limiter) (client c m : String) (now : ℕ) (db : Db) (s : ℕ)
      → zscore (record_request z l client now db) (limit_key c) m ≡ some s
      → (m ≡ decimal now) × (s ≡ now) ⊎ (zscore db (limit_key c) m ≡ some s)
  record_request-origin l client c m now db s e =
      let e' = rw zscore-record_request at e in
      ground (
        arith,
        e',
        ==_iff (decimal now) m,
        outside-some now l.window_seconds (zscore db (limit_key c) m) s,
      )

  record_request-IsStamped :
      (l : Limiter) (client : String) (now : ℕ) (db : Db)
      → IsStamped now db
      → IsStamped now (record_request z l client now db)
  record_request-IsStamped l client now db i = record {
    member = λ c m s e. elim (record_request-origin l client c m now db s e) [
      | inl (p, q) ↦ cc
      | inr old ↦ i.member c m s old
    ];
    past = λ c m s e. elim (record_request-origin l client c m now db s e) [
      | inl (p, q) ↦ omega arith
      | inr old ↦ i.past c m s old
    ];
  }

  -- a member that the removal leaves is one of the seconds of the window
  left_member :
      (w : ℕ) (client : String) (now : ℕ) (db : Db)
      → IsStamped now db
      → (m : String) (s : ℕ)
      → zscore (zremrangebyscore db (limit_key client) 0 (sub_ℕ now w)) (limit_key client) m
        ≡ some s
      → contains m (recent now w) ≡ true
  left_member w client now db i m s e =
      let e' = simp (z.zscore-zremrangebyscore, ==_refl) at e in
      let (old, inside) = outside-some now w _ s e' in
      rw (i.member client m s old) (contains-recent s now w (i.past client m s old) inside)

  -- The count is at most the number of seconds in the window.
  request_count-le-window :
      (l : Limiter) (client : String) (now : ℕ) (db : Db)
      → IsStamped now db
      → request_count z l client now db ≤ l.window_seconds
  unfolding request_count
  request_count-le-window l client now db i =
      let w = l.window_seconds in
      let key = limit_key client in
      let bound =
        z.zcard-le (zremrangebyscore db key 0 (sub_ℕ now w)) key (recent now w)
          (left_member w client now db i) in
      omega (arith, bound, length-recent now w)

  -- the answers of the limiter to a sequence of requests
  unfoldable pub answers : Limiter → List Visit → Db → List Bool
  answers l [] db = []
  answers l (v ∷ vs) db =
      let (limited, db') = is_rate_limited z l v.client v.now v.reachable (lapse db v.now) in
      limited ∷ answers l vs db'

  -- one request: it passes, and the invariant holds on
  pub is_rate_limited-passes :
      (l : Limiter) (client : String) (now : ℕ) (reachable : Bool) (db : Db)
      → l.window_seconds < l.default_limit
      → IsStamped now db
      → let (limited, db') = is_rate_limited z l client now reachable db in
        (limited ≡ false) × IsStamped now db'
  unfolding is_rate_limited
  is_rate_limited-passes l client now false db h i = (refl, i)
  is_rate_limited-passes l client now true db h i =
      let bound = request_count-le-window l client now db i in
      (ground arith, record_request-IsStamped l client now db i)

  never_limited_from :
      (l : Limiter) (t : ℕ) (visits : List Visit) (db : Db)
      → l.window_seconds < l.default_limit
      → Rising t visits
      → IsStamped t db
      → All (λ b. b ≡ false) (answers l visits db)
  unfolding answers
  never_limited_from l t [] db h r i = tt
  never_limited_from l t (v ∷ vs) db h (later, r) i =
      let stamped = lapse-IsStamped t v.now db later i in
      let (passes, kept) =
        is_rate_limited-passes l v.client v.now v.reachable (lapse db v.now) h stamped in
      (passes, never_limited_from l v.now vs _ h r kept)

  -- While the limit is larger than the number of seconds in the window, as it is by default and at
  -- the gateway, no sequence of requests is ever limited: from a store with no members of the
  -- limiter, with a clock that does not go back, whoever asks, however often, and whichever calls
  -- of the server fail.
  pub never_limited :
      (l : Limiter) (visits : List Visit) (db : Db)
      → l.window_seconds < l.default_limit
      → Rising 0 visits
      → IsFresh db
      → All (λ b. b ≡ false) (answers l visits db)
  never_limited l visits db h r f =
      never_limited_from l 0 visits db h r (IsStamped-of_IsFresh 0 db f)

  -- The requests of one client leave the members of another client's key as they are, so they do
  -- not count against it.
  pub is_rate_limited-other :
      (l : Limiter) (client other m : String) (now : ℕ) (reachable : Bool) (db : Db)
      → client ≢ other
      → zscore (is_rate_limited z l client now reachable db).1 (limit_key other) m
        ≡ zscore db (limit_key other) m
  unfolding is_rate_limited
  is_rate_limited-other l client other m now false db h = refl
  is_rate_limited-other l client other m now true db h =
      rw zscore-record_request (ground (arith, limit_key-ne client other h))
