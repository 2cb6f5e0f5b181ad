-- ===== src/Infrastructure/Cache/Isolation.antt =====
-- What one tenant's writes do to another tenant's reads.
use Prim.Native.String.{◌∷◌, ◌++◌}
use text.Mathlib.TextLemmas.{append_assoc, append_cancel_left, tail-eq_of_cons-eq}
use converse_os.Prelude.{
  ℕ, ◌≡◌, refl, sym, ap, ◌∙◌, String, List, [], ◌∷◌, Option, none, some, Bool, true, false, ◌&&◌,
  ◌==◌, ==_iff, ==_refl, string_eq, if◌then◌else◌, ok, arith,
}
use converse_os.Prelude.Split.{split, Lacks, split-append}
use converse_os.Infrastructure.Cache.{
  KeyValue, Json, value, CacheManager, build_key, with_client, or_text, ttl_or, parse, parse_found,
  get, set,
}

abbrev first : List String → String
first [] = ""
first (p ∷ ps) = p

-- a part that lacks the separator is determined by the text that starts with it
part_injective :
    (s t k j : String) → Lacks ":" s → Lacks ":" t → s ++ (":" ∷ k) ≡ t ++ (":" ∷ j) → s ≡ t
part_injective s t k j hs ht e =
    ap first (sym (split-append ":" s k hs) ∙ ap (split ":") e ∙ split-append ":" t j ht)

-- Keys of tenants are distinct for distinct tenants or keys, if the identifiers hold no colon.
build_key-injective :
    (c : CacheManager) (t u k j : String)
    → Lacks ":" t
    → Lacks ":" u
    → build_key c k (some t) ≡ build_key c j (some u)
    → (t ≡ u) × (k ≡ j)
unfolding build_key
build_key-injective c t u k j ht hu e = (same_tenant, same_key)
  where
    rest : ("t:" ++ t) ++ (":" ∷ k) ≡ ("t:" ++ u) ++ (":" ∷ j)
    rest = tail-eq_of_cons-eq (append_cancel_left c.key_prefix _ _ e)

    bare : t ++ (":" ∷ k) ≡ u ++ (":" ∷ j)
    bare =
        append_cancel_left "t:" _ _
          (sym (append_assoc "t:" t (":" ∷ k)) ∙ rest ∙ append_assoc "t:" u (":" ∷ j))

    same_tenant : t ≡ u
    same_tenant = part_injective t u k j ht hu bare

    same_key : k ≡ j
    same_key =
        tail-eq_of_cons-eq
          (append_cancel_left u _ _ (ap (λ s. s ++ (":" ∷ k)) (sym same_tenant) ∙ bare))

pub same_key_test :
    (c : CacheManager) (t u k j : String)
    → Lacks ":" t
    → Lacks ":" u
    → (build_key c k (some t) == build_key c j (some u)) ≡ (t == u && k == j)
same_key_test c t u k j ht hu =
    let injective = build_key-injective c t u k j ht hu in
    let full = ==_iff (build_key c k (some t)) (build_key c j (some u)) in
    let back : t ≡ u → k ≡ j → build_key c k (some t) ≡ build_key c j (some u) = λ p q. cc in
    ground (arith, injective, full, back, ==_iff t u, ==_iff k j)

module _ {V : Type 0} (json : Json V) (redis : KeyValue) (c : CacheManager) where
  pub parse_found-dumps :
      (v : V) → parse_found json (some (json.dumps v)) ≡ some (value (json.returned v))
  unfolding parse_found parse or_text
  parse_found-dumps v = ap (λ o. some (or_text o (json.dumps v))) (json.loads-dumps v)

  pub get-ok :
      (k : String) (t : Option String) (db : redis.Db)
      → c.initialized ≡ true
      → (get json redis c k t db).0 ≡ ok (parse_found json (redis.get db (build_key c k t)))
  unfolding get with_client
  get-ok k t db h = rw h refl

  set-ok :
      (k : String) (v : V) (t : Option String) (ttl : Option ℕ) (db : redis.Db)
      → c.initialized ≡ true
      → set json redis c k v t ttl db
        ≡ redis.set (build_key c k t) (json.dumps v) (ttl_or ttl c.default_ttl) db
  unfolding set with_client
  set-ok k v t ttl db h = rw h refl

  -- what is read after a write, by the full keys
  get-set_full :
      (k j : String) (t u : Option String) (v : V) (ttl : Option ℕ) (db : redis.Db)
      → c.initialized ≡ true
      → (set json redis c k v t ttl db).0 ≡ ok tt
      → (get json redis c j u (set json redis c k v t ttl db).1).0 ≡ (
          if build_key c k t == build_key c j u
          then ok (some (value (json.returned v)))
          else (get json redis c j u db).0)
  get-set_full k j t u v ttl db h returns =
      get-ok j u _ h
      ∙ ap (λ d. ok (parse_found json (redis.get d.1 (build_key c j u)))) (set-ok k v t ttl db h)
      ∙ ap (λ o. ok (parse_found json o))
          (redis.get-set _ _ _ db _ (ap (λ d. d.0) (sym (set-ok k v t ttl db h)) ∙ returns))
      ∙ picked (build_key c k t == build_key c j u)
    where
      picked :
          (b : Bool)
          → ok
              (parse_found json (if b then some (json.dumps v) else redis.get db (build_key c j u)))
            ≡ (if b then ok (some (value (json.returned v))) else (get json redis c j u db).0)
      picked true = ap ok (parse_found-dumps v)
      picked false = sym (get-ok j u db h)

  -- When a tenant's `set` has returned, that tenant then gets under that key the value as JSON gives
  -- it back, which for a UUID, a datetime or a tuple is not the value set; what any tenant gets
  -- under another key, and what another tenant gets under the same one, is as before. The cache is
  -- initialized, the identifiers hold no colon, as those of `uuid` do, and the time to live has not
  -- passed.
  pub get-set :
      (t u k j : String) (v : V) (ttl : Option ℕ) (db : redis.Db)
      → c.initialized ≡ true
      → Lacks ":" t
      → Lacks ":" u
      → (set json redis c k v (some t) ttl db).0 ≡ ok tt
      → (get json redis c j (some u) (set json redis c k v (some t) ttl db).1).0 ≡ (
          if t == u && k == j
          then ok (some (value (json.returned v)))
          else (get json redis c j (some u) db).0)
  get-set t u k j v ttl db h ht hu returns =
      rw (sym (same_key_test c t u k j ht hu))
        (get-set_full k j (some t) (some u) v ttl db h returns)

  -- A key that spells out a tenant's part is, without a tenant, the key of that tenant: whoever reads
  -- it without a tenant gets what the tenant has set, as JSON gives it back. The cache is initialized,
  -- the tenant's `set` has returned, and the time to live has not passed.
  pub get-untenanted :
      (t k : String) (v : V) (ttl : Option ℕ) (db : redis.Db)
      → c.initialized ≡ true
      → (set json redis c k v (some t) ttl db).0 ≡ ok tt
      → (get json redis c
          (("t:" ++ t) ++ (":" ∷ k))
          none
          (set json redis c k v (some t) ttl db).1).0
        ≡ ok (some (value (json.returned v)))
  unfolding build_key
  get-untenanted t k v ttl db h returns =
      get-set_full k _ (some t) none v ttl db h returns
      ∙ ap
          (λ b.
            if b
            then ok (some (value (json.returned v)))
            else (get json redis c (("t:" ++ t) ++ (":" ∷ k)) none db).0)
          (==_refl (build_key c k (some t)))
