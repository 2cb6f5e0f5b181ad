-- ===== src/Infrastructure/Rows/Upsert.antt =====
-- What a row reads after a save.
use converse_os.Prelude.{
  ℕ, ◌≡◌, ◌≢◌, refl, sym, ap, ◌∙◌, Option, none, some, Option-cases, inl, inr, List, [], ◌∷◌, Bool,
  ◌==◌, ==_refl, nat_eq, if◌then◌else◌, ok, raise,
}
use converse_os.Domain.Exceptions.{Exn}
use converse_os.Infrastructure.Rows.{Table, upsert, to_entity, one_or_none, entity_of, find_one}

module _ {Row : Type 0} (table : Table Row) where
  open table use {S, get, put, flush, select}

  -- the row that a save leaves
  abbrev pub saved : Row → (Row → Row) → Option Row → Row
  saved new updated none = new
  saved new updated (some row) = updated row

  upsert-put :
      (id : ℕ) (new : Row) (updated : Row → Row) (s : S)
      → upsert table id new updated s ≡ flush (put id (saved new updated (get s id)) s)
  unfolding upsert
  upsert-put id new updated s = elim (Option-cases (get s id)) [
    | inl absent ↦ rw (absent, upsert) refl
    | inr (row, found) ↦ rw (found, upsert) refl
  ]

  pub upsert-get :
      (id : ℕ) (new : Row) (updated : Row → Row) (s : S)
      → (upsert table id new updated s).0 ≡ ok tt
      → (j : ℕ)
      → get (upsert table id new updated s).1 j
        ≡ (if id == j then some (saved new updated (get s id)) else get s j)
  upsert-get id new updated s h j =
      table.get-flush (put id (saved new updated (get s id)) s) _
        (sym (upsert-put id new updated s) ∙ ap (λ r. (r, (upsert table id new updated s).1)) h) j
      ∙ table.get-put id _ s j

  pub upsert-get_self :
      (id : ℕ) (new : Row) (updated : Row → Row) (s : S)
      → (upsert table id new updated s).0 ≡ ok tt
      → get (upsert table id new updated s).1 id ≡ some (saved new updated (get s id))
  upsert-get_self id new updated s h =
      upsert-get id new updated s h id
      ∙ ap (λ b. if b then some (saved new updated (get s id)) else get s id) (==_refl id)

  entity_of-raises :
      {E : Type 0} (rows : List Row)
      → rows ≢ []
      → (e : Exn) × (entity_of table {E = E} rows ≡ raise e)
  unfolding entity_of one_or_none to_entity
  entity_of-raises [] h = absurd (h refl)
  entity_of-raises (r ∷ []) h = (_, refl)
  entity_of-raises (r ∷ q ∷ rs) h = (_, refl)

  -- a query that some row meets does not end with an entity
  pub find_one-raises :
      {E : Type 0} (p : Row → Bool) (s : S)
      → select p s ≢ []
      → (e : Exn) × (find_one table {E = E} p s ≡ raise e)
  unfolding find_one
  find_one-raises p s = entity_of-raises (select p s)
