-- ===== src/Middleware/RateLimiter/Example.antt =====
-- A concrete set of sorted sets: the documented laws of the interface can be met.
use mathlib.Core.Bool.{false≢true}
use converse_os.Prelude.{
  ℕ, String, ◌≤◌, ◌≡◌, refl, inl, inr, Option, none, some, List, [], ◌∷◌, Bool, true, false, ◌&&◌,
  ◌==◌, string_eq, contains, length, if◌then◌else◌, Option-cases, ==_iff, sym, ◌∙◌, arith,
}
use converse_os.Prelude.Counting.{
  distinct, distinct-IsDistinct, contains-distinct, length-le_of_subset,
}
use converse_os.Infrastructure.Redis.{SortedSets, outside}

-- the score of each member under each key, and the members that were ever added
pub record Table : Type 0 where
  pub score : String → String → Option ℕ
  pub names : List String

abbrev is_some : Option ℕ → Bool
is_some none = false
is_some (some s) = true

-- the names that the key has a score for
present : (String → Option ℕ) → List String → List String
present f [] = []
present f (n ∷ ns) = let rest = present f ns in if is_some (f n) then n ∷ rest else rest

unfoldable pub card : Table → String → ℕ
unfolding present
card t k = length (distinct (present (t.score k) t.names))

absent :
    (f : String → Option ℕ) (m : String) (ns : List String)
    → f m ≡ none
    → contains m (present f ns) ≡ false
unfolding present contains
absent f m [] h = refl
absent f m (n ∷ ns) h = ground (arith, absent f m ns h, ==_iff m n)

contains-present :
    (f : String → Option ℕ) (m : String) (ns : List String)
    → contains m (present f ns) ≡ true
    → (s : ℕ) × (f m ≡ some s)
contains-present f m ns h = elim (Option-cases (f m)) [
  | inl gone ↦ absurd (false≢true (sym (absent f m ns gone) ∙ h))
  | inr found ↦ found
]

pub card-le :
    (t : Table) (k : String) (ms : List String)
    → ((m : String) (s : ℕ) → t.score k m ≡ some s → contains m ms ≡ true)
    → card t k ≤ length ms
unfolding card
card-le t k ms h =
    length-le_of_subset (distinct (present (t.score k) t.names)) ms
      (distinct-IsDistinct (present (t.score k) t.names))
      (λ a m.
        let (s, e) = contains-present (t.score k) a t.names (rw contains-distinct at m) in h a s e)

abbrev pub redis : SortedSets
redis = record {
  Db = Table;
  zscore = λ t k m. t.score k m;
  zcard = card;
  zremrangebyscore = λ t k low high. record t {
    score = λ j m. if k == j then outside low high (t.score j m) else t.score j m;
  };
  zadd = λ t k m s. record {
    score = λ j n. if k == j && m == n then some s else t.score j n;
    names = m ∷ t.names;
  };
  expire = λ t k ttl. t;
  lapse = λ t now. t;
  zscore-zremrangebyscore = λ t k j m low high. refl;
  zscore-zadd = λ t k j m n s. refl;
  zscore-expire = λ t k j m ttl. refl;
  zscore-lapse = λ t now j m. inr refl;
  zcard-le = card-le;
}

abbrev pub empty : Table
empty = record { score = λ k m. none; names = [] }
