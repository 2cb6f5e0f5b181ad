-- ===== src/Infrastructure/Rows/Memory.antt =====
-- An instance of the interface: a table that is a dict in memory, which accepts every row.
use converse_os.Prelude.{
  ℕ, ◌≡◌, ◌≢◌, sym, ap, some, List, [], ◌∷◌, Bool, true, nat_eq, if◌then◌else◌, ok, arith,
}
use converse_os.Prelude.Dict.{Dict, lookup, insert, lookup-insert}
use converse_os.Infrastructure.Rows.{Table}

module _ {Row : Type 0} where
  unfoldable pub select : (Row → Bool) → Dict ℕ Row → List Row
  select p [] = []
  select p ((k, r) ∷ d) = let rest = select p d in if p r then r ∷ rest else rest

  pub select_complete :
      (p : Row → Bool) (d : Dict ℕ Row) (k : ℕ) (r : Row)
      → lookup k d ≡ some r
      → p r ≡ true
      → select p d ≢ []
  unfolding lookup select
  select_complete p [] k r found holds = λ h. cc
  select_complete p ((j, q) ∷ d) k r found holds = ground (arith, select_complete p d k r)

  abbrev pub memory : Table Row
  memory = record {
    S = Dict ℕ Row;
    get = λ d k. lookup k d;
    put = insert;
    flush = λ d. (ok tt, d);
    select = select;
    get-put = λ k r d j. lookup-insert k j r d;
    get-flush = λ d d' h j. ap (λ p. lookup j p.1) (sym h);
    select_complete = select_complete;
  }
