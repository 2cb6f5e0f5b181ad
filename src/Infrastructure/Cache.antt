-- ===== src/Infrastructure/Cache.antt =====
-- infrastructure/cache.py: `CacheManager`. A tenant identifier is the text that `str` gives of it.
-- Redis and `json` are parameters. A write of Redis may raise; its other commands are answered, but
-- for `ping` and `incrby`, as the pool of connections is not modelled.
pub mod Isolation
pub mod Patterns
pub mod Store
pub mod Refinement
mod Tests
use Prim.Native.String.{◌++◌}
use converse_os.Prelude.{
  ℕ, suc, ◌≡◌, String, List, [], ◌∷◌, Option, none, some, Bool, true, false, ◌==◌, nat_eq,
  string_eq, ltb, if◌then◌else◌, Result, ok, raise,
}
use converse_os.Prelude.Int.{ℤ}
use converse_os.Prelude.Dict.{Dict, insert}
use converse_os.Prelude.Split.{join}
use converse_os.Domain.Exceptions.{Exn, runtime_error}

-- whether a key is in a list
abbrev pub is_in : String → List String → Bool
is_in j [] = false
is_in j (k ∷ ks) = if k == j then true else is_in j ks

-- The commands of Redis that the manager sends, with what the documentation says of them. `set`
-- takes the time to live, `set_nx` sets a key that does not exist and says whether it did; both raise
-- where the time to live is 0, or the server does not answer, and the laws say what holds when they
-- have returned. `incrby` raises where the value is not a number. `matches` is whether a pattern describes a key; `scan` gives
-- the keys that match, and may give one twice.
pub record KeyValue : Type 1 where
  pub Db : Type 0
  pub get : Db → String → Option String
  pub set : String → String → ℕ → Db → Result Exn (Unit {0}) × Db
  pub set_nx : String → String → ℕ → Db → Result Exn Bool × Db
  pub delete : String → Db → ℕ × Db
  pub exists : Db → String → ℕ
  pub ping : Db → Result Exn Bool
  pub get-set :
      (k v : String) (ex : ℕ) (db : Db) (j : String)
      → (set k v ex db).0 ≡ ok tt
      → get (set k v ex db).1 j ≡ (if k == j then some v else get db j)
  pub set_nx-free :
      (k v : String) (ex : ℕ) (db : Db) (b : Bool) (j : String)
      → (set_nx k v ex db).0 ≡ ok b
      → get db k ≡ none
      → (b ≡ true) × (get (set_nx k v ex db).1 j ≡ (if k == j then some v else get db j))
  pub set_nx-taken :
      (k v w : String) (ex : ℕ) (db : Db) (b : Bool)
      → (set_nx k v ex db).0 ≡ ok b
      → get db k ≡ some w
      → (b ≡ false) × ((set_nx k v ex db).1 ≡ db)
  pub get-delete :
      (k : String) (db : Db) (j : String)
      → get (delete k db).1 j ≡ (if k == j then none else get db j)
  pub delete-count :
      (k : String) (db : Db) → (delete k db).0 ≡ elim (get db k) [ none ↦ 0 | some w ↦ 1 ]
  pub incrby : String → ℤ → Db → Result Exn ℤ × Db
  pub matches : String → String → Bool
  pub scan : Db → String → List String
  pub scan_sound : (db : Db) (p k : String) → is_in k (scan db p) ≡ true → matches p k ≡ true
  pub scan_complete :
      (db : Db) (p k v : String)
      → matches p k ≡ true
      → get db k ≡ some v
      → is_in k (scan db p) ≡ true

-- `json.dumps(value, default=str)` and `json.loads`, on the values `V` that `dumps` writes; `loads` is
-- `none` where it raises. `returned` is what `loads` gives for the text of a value: for a tuple a
-- list, for what JSON does not know, such as a UUID or a datetime, the text that `str` gives, and
-- for texts, numbers, lists and dicts of these the value itself.
pub record Json (V : Type 0) : Type 0 where
  pub dumps : V → String
  pub loads : String → Option V
  pub returned : V → V
  pub loads-dumps : (v : V) → loads (dumps v) ≡ some (returned v)

-- what a reader gets: the value, or the text that is not JSON
pub data Cached (V : Type 0) : Type 0 where
  value : V → Cached V
  text : String → Cached V

pub record CacheManager : Type 0 where
  pub key_prefix : String
  pub default_ttl : ℕ
  pub initialized : Bool

unfoldable pub build_key : CacheManager → String → Option String → String
build_key c key none = join ":" (c.key_prefix ∷ key ∷ [])
build_key c key (some tenant_id) = join ":" (c.key_prefix ∷ ("t:" ++ tenant_id) ∷ key ∷ [])

-- `client`, at the start of every call to Redis
unfoldable pub with_client {ℓ κ} :
    {A : Type ℓ} {D : Type κ} → CacheManager → (D → Result Exn A × D) → D → Result Exn A × D
with_client c call db =
    if c.initialized
    then call db
    else (raise (runtime_error "CacheManager not initialized. Call initialize() first."), db)

-- `ttl or self._default_ttl`
unfoldable pub ttl_or : Option ℕ → ℕ → ℕ
ttl_or none default = default
ttl_or (some ttl) default = if ttl == 0 then default else ttl

-- the result of `json.loads(value)`, or `value` itself
unfoldable pub or_text : {V : Type 0} → Option V → String → Cached V
or_text none s = text s
or_text (some v) s = value v

module _ {V : Type 0} (json : Json V) where
  unfoldable pub parse : String → Cached V
  unfolding or_text
  parse s = or_text (json.loads s) s

  unfoldable pub parse_found : Option String → Option (Cached V)
  unfolding parse
  parse_found none = none
  parse_found (some s) = some (parse s)

  module _ (redis : KeyValue) (c : CacheManager) where
    unfoldable pub get :
        String → Option String → redis.Db → Result Exn (Option (Cached V)) × redis.Db
    unfolding build_key with_client parse_found
    get key tenant_id =
        with_client c (λ db. (ok (parse_found (redis.get db (build_key c key tenant_id))), db))

    unfoldable pub set :
        String → V → Option String → Option ℕ → redis.Db → Result Exn (Unit {0}) × redis.Db
    unfolding build_key with_client ttl_or
    set key v tenant_id ttl =
        with_client c
          (redis.set (build_key c key tenant_id) (json.dumps v) (ttl_or ttl c.default_ttl))

    unfoldable pub delete : String → Option String → redis.Db → Result Exn Bool × redis.Db
    unfolding build_key with_client
    delete key tenant_id =
        with_client c
          (λ db. let (n, db') = redis.delete (build_key c key tenant_id) db in (ok (ltb 0 n), db'))

    unfoldable pub exists : String → Option String → redis.Db → Result Exn Bool × redis.Db
    unfolding build_key with_client
    exists key tenant_id =
        with_client c (λ db. (ok (ltb 0 (redis.exists db (build_key c key tenant_id))), db))

    unfoldable pub set_with_nx :
        String → V → ℕ → Option String → redis.Db → Result Exn Bool × redis.Db
    unfolding build_key with_client
    set_with_nx key v ttl tenant_id =
        with_client c (redis.set_nx (build_key c key tenant_id) (json.dumps v) ttl)

    -- the loop of `get_many` over the keys and the values that `mget` returned for them
    unfoldable pub found_values :
        Option String → redis.Db → List String → Dict String (Cached V) → Dict String (Cached V)
    unfolding build_key insert parse
    found_values tenant_id db [] result = result
    found_values tenant_id db (key ∷ keys) result =
        let rest = found_values tenant_id db keys in
        elim (redis.get db (build_key c key tenant_id)) [
          | none ↦ rest result
          | some s ↦ rest (insert key (parse s) result)
        ]

    unfoldable pub get_many :
        List String → Option String → redis.Db → Result Exn (Dict String (Cached V)) × redis.Db
    unfolding with_client found_values
    get_many keys tenant_id = with_client c (λ db. (ok (found_values tenant_id db keys []), db))

    unfoldable pub increment : String → ℤ → Option String → redis.Db → Result Exn ℤ × redis.Db
    unfolding build_key with_client
    increment key amount tenant_id = with_client c (redis.incrby (build_key c key tenant_id) amount)

    -- the loop of `delete_pattern`, with the count
    unfoldable pub delete_keys : List String → redis.Db → ℕ × redis.Db
    delete_keys [] db = (0, db)
    delete_keys (key ∷ keys) db =
        let (deleted, db') = delete_keys keys (redis.delete key db).1 in (suc deleted, db')

    unfoldable pub delete_pattern : String → Option String → redis.Db → Result Exn ℕ × redis.Db
    unfolding build_key with_client delete_keys
    delete_pattern pattern tenant_id = with_client c (λ db.
        let (deleted, db') = delete_keys (redis.scan db (build_key c pattern tenant_id)) db in
        (ok deleted, db'))

    -- an exception of `ping`, or of the client, is answered by `False`
    unfoldable pub health_check : redis.Db → Bool
    health_check db =
        if c.initialized then elim (redis.ping db) [ ok b ↦ b | raise e ↦ false ] else false
