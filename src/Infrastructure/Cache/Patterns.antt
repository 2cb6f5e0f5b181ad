-- ===== src/Infrastructure/Cache/Patterns.antt =====
-- What a deletion by a pattern leaves.
use converse_os.Prelude.{
  suc, ◌≡◌, refl, sym, ap, ◌∙◌, String, List, [], ◌∷◌, length, Option, none, Option-cases, Bool,
  true, false, Bool-cases, inl, inr, ◌==◌, string_eq, if◌then◌else◌, Result, ok, arith,
}
use converse_os.Infrastructure.Cache.{
  KeyValue, Json, CacheManager, is_in, build_key, with_client, parse_found, get, delete_keys,
  delete_pattern,
}
use converse_os.Infrastructure.Cache.Isolation.{get-ok}

module _ {V : Type 0} (json : Json V) (redis : KeyValue) (c : CacheManager) where
  one_less :
      (b rest : Bool) (o : Option String)
      → (if rest then none else if b then none else o)
        ≡ (if (if b then true else rest) then none else o)
  one_less true true o = refl
  one_less true false o = refl
  one_less false rest o = refl

  delete_keys-get :
      (ks : List String) (db : redis.Db) (j : String)
      → redis.get (delete_keys json redis c ks db).1 j
        ≡ (if is_in j ks then none else redis.get db j)
  unfolding delete_keys
  delete_keys-get [] db j = refl
  delete_keys-get (k ∷ ks) db j =
      delete_keys-get ks (redis.delete k db).1 j
      ∙ ap (λ o. if is_in j ks then none else o) (redis.get-delete k db j)
      ∙ one_less (k == j) (is_in j ks) (redis.get db j)

  delete_keys-length :
      (ks : List String) (db : redis.Db) → (delete_keys json redis c ks db).0 ≡ length ks
  unfolding delete_keys
  delete_keys-length [] db = refl
  delete_keys-length (k ∷ ks) db = ap suc (delete_keys-length ks (redis.delete k db).1)

  -- a key that was scanned matches, and one that matches was scanned if it is there
  scanned :
      (db : redis.Db) (p j : String)
      → (if is_in j (redis.scan db p) then none else redis.get db j)
        ≡ (if redis.matches p j then none else redis.get db j)
  scanned db p j = elim (Option-cases (redis.get db j)) [
    | inl absent ↦ ground (arith, absent)
    | inr (v, found) ↦ elim (Bool-cases (redis.matches p j)) [
      | inl matching ↦ ground (arith, matching, redis.scan_complete db p j v matching found)
      | inr other ↦ ground (arith, other, redis.scan_sound db p j)
    ]
  ]

  delete_pattern-ok :
      (pattern : String) (t : Option String) (db : redis.Db)
      → c.initialized ≡ true
      → delete_pattern json redis c pattern t db ≡ (
          let (deleted, db') =
            delete_keys json redis c (redis.scan db (build_key c pattern t)) db in
          (ok deleted, db'))
  unfolding delete_pattern with_client
  delete_pattern-ok pattern t db h = rw h refl

  -- After a deletion by a pattern, a read finds nothing under a key that the full pattern matches, and
  -- under any other key what was there; the number that is returned is that of the keys that the
  -- server has listed. The cache is initialized.
  pub get-delete_pattern :
      (pattern : String) (t : Option String) (db : redis.Db) (k : String) (u : Option String)
      → c.initialized ≡ true
      → let (deleted, after) = delete_pattern json redis c pattern t db in
        (deleted ≡ ok (length (redis.scan db (build_key c pattern t))))
        × ((get json redis c k u after).0 ≡ (
            if redis.matches (build_key c pattern t) (build_key c k u)
            then ok none
            else (get json redis c k u db).0))
  unfolding parse_found
  get-delete_pattern pattern t db k u h = rw (delete_pattern-ok pattern t db h) (
    ap ok (delete_keys-length _ db),
    get-ok json redis c k u _ h
        ∙ ap (λ o. ok (parse_found json o))
            (delete_keys-get _ db (build_key c k u)
              ∙ scanned db (build_key c pattern t) (build_key c k u))
        ∙ read_back (redis.matches (build_key c pattern t) (build_key c k u)),
  )
    where
      read_back :
          (b : Bool)
          → Path
              (Result _ _)
              (ok (parse_found json (if b then none else redis.get db (build_key c k u))))
              (if b then ok none else (get json redis c k u db).0)
      read_back true = refl
      read_back false = sym (get-ok json redis c k u db h)
