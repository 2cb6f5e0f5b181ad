-- ===== src/Infrastructure/Cache/Tests.antt =====
-- The theorems on a Redis that is a dict without expiry, and texts as JSON.
use Prim.Native.String.{◌∷◌, ◌++◌}
use converse_os.Prelude.{
  ℕ, ◌≡◌, refl, String, List, [], ◌∷◌, none, Option, some, ap, ◌∙◌, Bool-cases, inl, inr, Result,
  nat_eq, ==_iff, length, raise, Bool, true, false, ◌&&◌, ◌==◌, string_eq, if◌then◌else◌, ok, arith,
}
use converse_os.Prelude.Dict.{Dict, lookup, insert, remove, lookup-insert, lookup-remove}
use converse_os.Domain.Exceptions.{Exn, other}
use converse_os.Infrastructure.Cache.{
  KeyValue, Json, value, CacheManager, is_in, delete_pattern, build_key, get, set, set_with_nx,
  delete,
}
use converse_os.Infrastructure.Cache.Isolation.{get-set, get-untenanted}
use converse_os.Infrastructure.Cache.Patterns.{get-delete_pattern}
use converse_os.Infrastructure.Cache.Refinement.{run, Reads, run-replay}
use converse_os.Infrastructure.Cache.Store.{Op, put, erase, claim, read, Store, replay}

abbrev Memory : Type 0
Memory = Dict String String

-- a time to live of 0 is refused
abbrev set_memory : String → String → ℕ → Memory → Result Exn (Unit {0}) × Memory
set_memory k v ex db =
    if ex == 0
    then (raise (other "invalid expire time in 'set' command"), db)
    else (ok tt, insert k v db)

set_memory-get :
    (k v : String) (ex : ℕ) (db : Memory) (j : String)
    → (set_memory k v ex db).0 ≡ ok tt
    → lookup j (set_memory k v ex db).1 ≡ (if k == j then some v else lookup j db)
set_memory-get k v ex db j h = elim (Bool-cases (ex == 0)) [
  | inl zero ↦ absurd (raise_ok (rw zero at h))
  | inr positive ↦ rw positive (lookup-insert k j v db)
]
  where
    raise_ok : {e : Exn} → Path (Result Exn (Unit {0})) (raise e) (ok tt) → ⊥
    raise_ok e = cc

abbrev set_new : String → String → ℕ → Memory → Result Exn Bool × Memory
set_new k v ex db = elim (lookup k db) [ none ↦ (ok true, insert k v db) | some w ↦ (ok false, db) ]

set_new-free :
    (k v : String) (ex : ℕ) (db : Memory) (b : Bool) (j : String)
    → (set_new k v ex db).0 ≡ ok b
    → lookup k db ≡ none
    → (b ≡ true) × (lookup j (set_new k v ex db).1 ≡ (if k == j then some v else lookup j db))
set_new-free k v ex db b j h free = ground (arith, lookup-insert k j v db)

set_new-taken :
    (k v w : String) (ex : ℕ) (db : Memory) (b : Bool)
    → (set_new k v ex db).0 ≡ ok b
    → lookup k db ≡ some w
    → (b ≡ false) × ((set_new k v ex db).1 ≡ db)
set_new-taken k v w ex db b h taken = ground arith

-- a pattern without wildcards
abbrev found_key : String → Option String → List String
found_key p none = []
found_key p (some v) = p ∷ []

abbrev scan_memory : Memory → String → List String
scan_memory db p = found_key p (lookup p db)

if_same : (b : Bool) → (if b then true else false) ≡ true → b ≡ true
if_same true h = refl
if_same false h = h

found_key_sound :
    (p k : String) (o : Option String) → is_in k (found_key p o) ≡ true → (p == k) ≡ true
found_key_sound p k none h = cc
found_key_sound p k (some v) h = if_same (p == k) h

scan_memory_complete :
    (db : Memory) (p k v : String)
    → (p == k) ≡ true
    → lookup k db ≡ some v
    → is_in k (scan_memory db p) ≡ true
scan_memory_complete db p k v same found =
    ap (λ o. is_in k (found_key p o)) (ap (λ j. lookup j db) ((==_iff p k).0 same) ∙ found)
    ∙ ap (λ b. if b then true else false) same

abbrev redis : KeyValue
redis = record {
  Db = Memory;
  get = λ db k. lookup k db;
  set = set_memory;
  set_nx = set_new;
  delete = λ k db. (elim (lookup k db) [ none ↦ 0 | some w ↦ 1 ], remove k db);
  exists = λ db k. elim (lookup k db) [ none ↦ 0 | some w ↦ 1 ];
  ping = λ db. ok true;
  get-set = set_memory-get;
  set_nx-free = set_new-free;
  set_nx-taken = set_new-taken;
  get-delete = λ k db j. lookup-remove k j db;
  delete-count = λ k db. refl;
  incrby = λ k n db. (raise (other "value is not an integer"), db);
  matches = λ p k. p == k;
  scan = scan_memory;
  scan_sound = λ db p k. found_key_sound p k (lookup p db);
  scan_complete = scan_memory_complete;
}

abbrev json : Json String
json = record { dumps = λ s. s; loads = λ s. some s; returned = λ s. s; loads-dumps = λ s. refl }

abbrev cache : CacheManager
cache = record { key_prefix = "converse"; default_ttl = 300; initialized = true }

abbrev tenant : String
tenant = "a1"

abbrev key : String
key = "user:1"

get-set_example :
    (get json redis cache "user:1"
      (some "b2")
      (set json redis cache "user:1" "x" (some "a1") none []).1).0
    ≡ (if tenant == "b2" && key == "user:1"
        then ok (some (value "x"))
        else (get json redis cache "user:1" (some "b2") []).0)
unfolding set
get-set_example =
    get-set json redis cache "a1" "b2" "user:1" "user:1" "x" none [] refl
      (omega arith, (omega arith, tt)) (omega arith, (omega arith, tt)) refl

get-untenanted_example :
    (get json redis cache
      (("t:" ++ "a1") ++ (":" ∷ "user"))
      none
      (set json redis cache "user" "x" (some "a1") none []).1).0
    ≡ ok (some (value "x"))
unfolding set
get-untenanted_example = get-untenanted json redis cache "a1" "user" "x" none [] refl refl

no_lock : redis.get [] (build_key cache "lock" none) ≡ none
unfolding lookup
no_lock = refl

abbrev calls : List (Op String)
calls =
    put "a1" "user" "x" none
    ∷ read "b2" "user"
    ∷ claim "a1" "user" "y" 10
    ∷ erase "a1" "user"
    ∷ read "a1" "user"
    ∷ []

abbrev empty : Store String
empty t k = none

run-replay_example :
    ((run json redis cache calls []).0 ≡ (replay json.returned calls empty).0)
    × Reads json redis cache (run json redis cache calls []).1 (replay json.returned calls empty).1
unfolding lookup set get set_with_nx insert delete
run-replay_example =
    run-replay json redis cache calls [] empty refl
      (
        (omega arith, (omega arith, tt)),
        (
          (omega arith, (omega arith, tt)),
          (
            (omega arith, (omega arith, tt)),
            ((omega arith, (omega arith, tt)), ((omega arith, (omega arith, tt)), tt)),
          ),
        ),
      )
      (λ t k _. refl) ((_, refl), ((_, refl), ((_, refl), ((_, refl), ((_, refl), tt)))))

abbrev filled : Memory
filled = (build_key cache "user" (some "a1"), "x") ∷ []

get-delete_pattern_example :
    let (deleted, after) = delete_pattern json redis cache "user" (some "a1") filled in
    (deleted ≡ ok (length (scan_memory filled (build_key cache "user" (some "a1")))))
    × ((get json redis cache "user" (some "b2") after).0 ≡ (
        if build_key cache "user" (some "a1") == build_key cache "user" (some "b2")
        then ok none
        else (get json redis cache "user" (some "b2") filled).0))
get-delete_pattern_example =
    get-delete_pattern json redis cache "user" (some "a1") filled "user" (some "b2") refl

deleted_user :
    (get json redis cache "user"
      (some "a1")
      (delete_pattern json redis cache "user" (some "a1") filled).1).0
    ≡ ok none
unfolding get delete_pattern lookup remove
deleted_user = refl
