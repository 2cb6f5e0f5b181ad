-- ===== src/Infrastructure/Cache/Refinement.antt =====
-- The cache does what the function of a tenant and a key does, for any sequence of calls.
use mathlib.Core.Path.{subst}
use converse_os.Prelude.{
  ℕ, ◌≡◌, refl, sym, ap, ◌∙◌, String, List, [], ◌∷◌, Option, none, some, Bool, true, false, ◌&&◌,
  ltb, ◌==◌, string_eq, if◌then◌else◌, Result, ok, raise, All,
}
use converse_os.Prelude.Split.{Lacks}
use converse_os.Domain.Exceptions.{Exn}
use converse_os.Infrastructure.Cache.{
  KeyValue, Json, CacheManager, build_key, with_client, ttl_or, parse_found, get, set, delete,
  set_with_nx,
}
use converse_os.Infrastructure.Cache.Isolation.{same_key_test, parse_found-dumps}
use converse_os.Infrastructure.Cache.Store.{
  Op, put, erase, claim, read, tenant_of, Reply, done, flag, found, Store, update_at, is_some,
  cached, claim_at, perform_at, replay,
}

abbrev pub returning :
    {A V D : Type 0} → (A → Reply V) → Result Exn A × D → Result Exn (Reply V) × D
returning f (ok a, db) = (ok (f a), db)
returning f (raise e, db) = (raise e, db)

-- the call has not raised
abbrev pub IsReturned : {V : Type 0} → Result Exn (Reply V) → Type 0
IsReturned {V} r = (reply : Reply V) × (r ≡ ok reply)

module _ {V : Type 0} (json : Json V) (redis : KeyValue) (c : CacheManager) where
  -- the same calls on the cache
  abbrev pub perform : Op V → redis.Db → Result Exn (Reply V) × redis.Db
  perform (put t k v ttl) db = returning (λ _. done) (set json redis c k v (some t) ttl db)
  perform (erase t k) db = returning flag (delete json redis c k (some t) db)
  perform (claim t k v ttl) db = returning flag (set_with_nx json redis c k v ttl (some t) db)
  perform (read t k) db = returning found (get json redis c k (some t) db)

  abbrev pub run : List (Op V) → redis.Db → List (Result Exn (Reply V)) × redis.Db
  run [] db = ([], db)
  run (op ∷ ops) db =
      let (reply, db') = perform op db in
      let (replies, last) = run ops db' in (reply ∷ replies, last)

  abbrev pub stored : Option V → Option String
  stored none = none
  stored (some v) = some (json.dumps v)

  -- the database holds what the function says, under the keys of tenants
  abbrev pub Reads : redis.Db → Store V → Type 0
  Reads db f = (t k : String) → Lacks ":" t → redis.get db (build_key c k (some t)) ≡ stored (f t k)

  stored-if :
      (b : Bool) (o p : Option V) → (if b then stored o else stored p) ≡ stored (if b then o else p)
  stored-if true o p = refl
  stored-if false o p = refl

  -- a change of one full key is a change of the function at one place
  write-Reads :
      (db db' : redis.Db) (f : Store V) (t k : String) (o : Option V)
      → Lacks ":" t
      → ((j : String)
          → redis.get db' j ≡ (if build_key c k (some t) == j then stored o else redis.get db j))
      → Reads db f
      → Reads db' (update_at f t k o)
  write-Reads db db' f t k o ht change h u j hu =
      change (build_key c j (some u))
      ∙ ap (λ b. if b then stored o else redis.get db (build_key c j (some u)))
          (same_key_test c t u k j ht hu)
      ∙ ap (λ p. if t == u && k == j then stored o else p) (h u j hu)
      ∙ stored-if (t == u && k == j) o (f u j)

  -- one call does to the function what it does to the database, and returns the same
  abbrev Follows : Op V → redis.Db → Store V → Type 0
  Follows op db f =
      ((perform op db).0 ≡ ok (perform_at json.returned op f).0)
      × Reads (perform op db).1 (perform_at json.returned op f).1

  -- a call whose result is known follows the function if the result does
  follow :
      (op : Op V) (db : redis.Db) (f : Store V) (p : Result Exn (Reply V) × redis.Db)
      → perform op db ≡ p
      → (p.0 ≡ ok (perform_at json.returned op f).0) × Reads p.1 (perform_at json.returned op f).1
      → Follows op db f
  follow op db f p e = rw (sym e) (λ h. h)

  -- a call that has returned
  abbrev Returns : Op V → redis.Db → Type 0
  Returns op db = (r : Reply V) × ((perform op db).0 ≡ ok r)

  returning-Returns :
      {A : Type 0} (f : A → Reply V) (p : Result Exn A × redis.Db) (r : Reply V)
      → (returning f p).0 ≡ ok r
      → (a : A) × (p.0 ≡ ok a) × (returning f p ≡ (ok (f a), p.1))
  returning-Returns f (ok a, db) r h = (a, refl, refl)
  returning-Returns f (raise e, db) r h = cc

  put-ok :
      (t k : String) (v : V) (ttl : Option ℕ) (db : redis.Db)
      → c.initialized ≡ true
      → perform (put t k v ttl) db
        ≡ returning
            (λ _. done)
            (redis.set (build_key c k (some t)) (json.dumps v) (ttl_or ttl c.default_ttl) db)
  unfolding set with_client
  put-ok t k v ttl db h = rw h refl

  put-Follows :
      (t k : String) (v : V) (ttl : Option ℕ) (db : redis.Db) (f : Store V)
      → c.initialized ≡ true
      → Lacks ":" t
      → Reads db f
      → Returns (put t k v ttl) db
      → Follows (put t k v ttl) db f
  put-Follows t k v ttl db f h ht reads (r, answered) =
      let (u, went, same) =
        returning-Returns (λ _. done) _ r
          (ap (λ p. p.0) (sym (put-ok t k v ttl db h)) ∙ answered) in
      follow (put t k v ttl) db f _ (put-ok t k v ttl db h ∙ same)
        (refl, write-Reads db _ f t k (some v) ht (λ j. redis.get-set _ _ _ db j went) reads)

  deleted : (o : Option V) → ltb 0 (elim (stored o) [ none ↦ 0 | some w ↦ 1 ]) ≡ is_some o
  deleted none = refl
  deleted (some v) = refl

  erase-ok :
      (t k : String) (db : redis.Db)
      → c.initialized ≡ true
      → perform (erase t k) db
        ≡ (let (n, db') = redis.delete (build_key c k (some t)) db in (ok (flag (ltb 0 n)), db'))
  unfolding delete with_client
  erase-ok t k db h = rw h refl

  erase-Follows :
      (t k : String) (db : redis.Db) (f : Store V)
      → c.initialized ≡ true
      → Lacks ":" t
      → Reads db f
      → Follows (erase t k) db f
  erase-Follows t k db f h ht reads = follow (erase t k) db f _ (erase-ok t k db h) (
    ap (λ n. ok (flag (ltb 0 n))) (redis.delete-count (build_key c k (some t)) db)
        ∙ ap (λ o. ok (flag (ltb 0 (elim o [ none ↦ 0 | some w ↦ 1 ])))) (reads t k ht)
        ∙ ap (λ b. ok (flag b)) (deleted (f t k)),
    write-Reads db _ f t k none ht (λ j. redis.get-delete _ db j) reads,
  )

  parsed : (o : Option V) → parse_found json (stored o) ≡ cached json.returned o
  unfolding parse_found
  parsed none = refl
  parsed (some v) = parse_found-dumps json redis c v

  read-ok :
      (t k : String) (db : redis.Db)
      → c.initialized ≡ true
      → perform (read t k) db
        ≡ (ok (found (parse_found json (redis.get db (build_key c k (some t))))), db)
  unfolding get with_client
  read-ok t k db h = rw h refl

  read-Follows :
      (t k : String) (db : redis.Db) (f : Store V)
      → c.initialized ≡ true
      → Lacks ":" t
      → Reads db f
      → Follows (read t k) db f
  read-Follows t k db f h ht reads = follow (read t k) db f _ (read-ok t k db h) (
    ap (λ o. ok (found (parse_found json o))) (reads t k ht)
        ∙ ap (λ o. ok (found o)) (parsed (f t k)),
    reads,
  )

  claim-ok :
      (t k : String) (v : V) (ttl : ℕ) (db : redis.Db)
      → c.initialized ≡ true
      → perform (claim t k v ttl) db
        ≡ returning flag (redis.set_nx (build_key c k (some t)) (json.dumps v) ttl db)
  unfolding set_with_nx with_client
  claim-ok t k v ttl db h = rw h refl

  claim_cases :
      (t k : String) (v : V) (ttl : ℕ) (db : redis.Db) (f : Store V) (b : Bool) (o : Option V)
      → Lacks ":" t
      → Reads db f
      → redis.get db (build_key c k (some t)) ≡ stored o
      → let p = redis.set_nx (build_key c k (some t)) (json.dumps v) ttl db in
        p.0 ≡ ok b
        → (Path (Result Exn (Reply V)) (ok (flag b)) (ok (claim_at f t k v o).0))
          × Reads p.1 (claim_at f t k v o).1
  claim_cases t k v ttl db f b none ht reads free went = (
    ap (λ x. ok (flag x)) (redis.set_nx-free _ _ _ db b "" went free).0,
    write-Reads db _ f t k (some v) ht (λ j. (redis.set_nx-free _ _ _ db b j went free).1) reads,
  )
  claim_cases t k v ttl db f b (some w) ht reads taken went =
      let (refused, same) = redis.set_nx-taken _ _ _ _ db b went taken in
      (ap (λ x. ok (flag x)) refused, subst (λ d. Reads d f) (sym same) reads)

  claim-Follows :
      (t k : String) (v : V) (ttl : ℕ) (db : redis.Db) (f : Store V)
      → c.initialized ≡ true
      → Lacks ":" t
      → Reads db f
      → Returns (claim t k v ttl) db
      → Follows (claim t k v ttl) db f
  claim-Follows t k v ttl db f h ht reads (r, answered) =
      let (b, went, same) =
        returning-Returns flag _ r (ap (λ p. p.0) (sym (claim-ok t k v ttl db h)) ∙ answered) in
      follow (claim t k v ttl) db f _ (claim-ok t k v ttl db h ∙ same)
        (claim_cases t k v ttl db f b (f t k) ht reads (reads t k ht) went)

  perform-Follows :
      (op : Op V) (db : redis.Db) (f : Store V)
      → c.initialized ≡ true
      → Lacks ":" (tenant_of op)
      → Reads db f
      → Returns op db
      → Follows op db f
  perform-Follows (put t k v ttl) db f h ht reads answered =
      put-Follows t k v ttl db f h ht reads answered
  perform-Follows (erase t k) db f h ht reads answered = erase-Follows t k db f h ht reads
  perform-Follows (claim t k v ttl) db f h ht reads answered =
      claim-Follows t k v ttl db f h ht reads answered
  perform-Follows (read t k) db f h ht reads answered = read-Follows t k db f h ht reads

  -- Any sequence of `set`, `delete`, `set_with_nx` and `get` calls for tenants of which none raises
  -- returns what the same sequence returns on a function of tenant and key, where a reader gets what
  -- JSON gives back for the value set; the database then holds what the function says, if it did so
  -- before. The cache is initialized, the identifiers of the tenants hold no colon, and no time to
  -- live passes.
  pub run-replay :
      (ops : List (Op V)) (db : redis.Db) (f : Store V)
      → c.initialized ≡ true
      → All (λ op. Lacks ":" (tenant_of op)) ops
      → Reads db f
      → All IsReturned (run ops db).0
      → ((run ops db).0 ≡ (replay json.returned ops f).0)
        × Reads (run ops db).1 (replay json.returned ops f).1
  run-replay [] db f h hs reads returns = (refl, reads)
  run-replay (op ∷ ops) db f h hs reads returns =
      let (same, reads') = perform-Follows op db f h hs.0 reads returns.0 in
      let (rest, last) = run-replay ops _ _ h hs.1 reads' returns.1 in (cc, last)
