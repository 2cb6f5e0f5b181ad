-- ===== src/Infrastructure/Rows.antt =====
-- What the repositories of the services (`*_repo_impl.py`) share: a session of SQLAlchemy on one
-- table, which is a parameter, and the shape of `save`. The classes of the entities have no method
-- `reconstitute`, so `_to_entity` raises an `AttributeError`.
pub mod Upsert
pub mod Memory
use converse_os.Prelude.{
  ℕ, ◌≡◌, ◌≢◌, Option, none, some, List, [], ◌∷◌, Bool, true, ◌==◌, nat_eq, if◌then◌else◌, Result,
  ok, raise,
}
use converse_os.Domain.Exceptions.{Exn, other}

-- The rows that a session sees, by primary key. `put` is the `add` of a new object, or the assignment
-- of the attributes of one that `get` has loaded; `flush` sends it to the database, which may refuse
-- it. `select` runs a query for the rows that meet a condition.
pub record Table (Row : Type 0) : Type 1 where
  pub S : Type 0
  pub get : S → ℕ → Option Row
  pub put : ℕ → Row → S → S
  pub flush : S → Result Exn (Unit {0}) × S
  pub select : (Row → Bool) → S → List Row
  pub get-put :
      (k : ℕ) (r : Row) (s : S) (j : ℕ) → get (put k r s) j ≡ (if k == j then some r else get s j)
  pub get-flush : (s s' : S) → flush s ≡ (ok tt, s') → (j : ℕ) → get s' j ≡ get s j
  pub select_complete :
      (p : Row → Bool) (s : S) (k : ℕ) (r : Row) → get s k ≡ some r → p r ≡ true → select p s ≢ []

-- the call of a method that the class does not have
abbrev pub no_reconstitute : Exn
no_reconstitute = other "AttributeError: reconstitute"

module _ {Row : Type 0} (table : Table Row) where
  -- the two branches of `save`, and the flush
  unfoldable pub upsert : ℕ → Row → (Row → Row) → table.S → Result Exn (Unit {0}) × table.S
  upsert id new updated s = elim (table.get s id) [
    | none ↦ table.flush (table.put id new s)
    | some row ↦ table.flush (table.put id (updated row) s)
  ]

  -- `self._to_entity(model) if model else None`
  unfoldable pub to_entity : {E : Type 0} → Option Row → Result Exn (Option E)
  to_entity none = ok none
  to_entity (some row) = raise no_reconstitute

  -- `scalar_one_or_none`
  unfoldable pub one_or_none : List Row → Result Exn (Option Row)
  one_or_none [] = ok none
  one_or_none (r ∷ []) = ok (some r)
  one_or_none (r ∷ q ∷ rs) = raise (other "MultipleResultsFound")

  -- `scalar_one_or_none`, and then the entity
  unfoldable pub entity_of : {E : Type 0} → List Row → Result Exn (Option E)
  unfolding one_or_none to_entity
  entity_of rows = elim (one_or_none rows) [ ok row ↦ to_entity row | raise e ↦ raise e ]

  unfoldable pub find_one : {E : Type 0} → (Row → Bool) → table.S → Result Exn (Option E)
  unfolding entity_of
  find_one p s = entity_of (table.select p s)
