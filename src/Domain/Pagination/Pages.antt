-- ===== src/Domain/Pagination/Pages.antt =====
-- The pages cut a list without loss, and the flags of a page say whether there is another.
use native.Mathlib.Nat.{le-div_iff_mul-le}
use converse_os.Prelude.{
  ℕ, zero, suc, ◌+◌, ◌-◌, ◌*◌, ◌/◌, ◌≤◌, ◌<◌, ◌≡◌, ◌≢◌, refl, sym, ap, ◌∙◌, ◌↔◌, List, [], ◌∷◌,
  ◌++◌, true, ltb, nat_eq, length, take, drop, arith,
}
use converse_os.Domain.Pagination.{
  Pagination, PaginatedResult, offset, limit, total_pages, has_next,
}

ltb_iff : (a b : ℕ) → (ltb a b ≡ true) ↔ (a < b)
ltb_iff a b = ground arith

-- Page `p` of pages of `s` items is the last one needed or a later one exactly when `p` of them hold
-- everything.
lt-total_pages : (p t s : ℕ) → 0 < s → (p < (t + s - 1) / s) ↔ (p * s < t)
lt-total_pages p t s h =
    let fits : (suc p ≤ (t + s - 1) / s) ↔ (suc p * s ≤ t + s - 1) = le-div_iff_mul-le h in
    let scaled : suc p * s ≡ p * s + s = omega arith in ground (arith, fits, scaled)

zero-mul : (s : ℕ) → 0 ≡ 0 * s
zero-mul s = omega arith

sub_one : (n s : ℕ) → (suc n - 1) * s ≡ n * s
sub_one n s = ap (λ m. m * s) (suc_sub n)
  where
    suc_sub : (k : ℕ) → suc k - 1 ≡ k
    suc_sub k = omega arith

suc-mul : (n s : ℕ) → n * s + s ≡ suc n * s
suc-mul n s = omega arith

module _ {ℓ} {T : Type ℓ} where
  -- what a query with `OFFSET` and `LIMIT` returns of the rows
  abbrev pub fetch : Pagination → List T → List T
  fetch p rows = take (limit p) (drop (offset p) rows)

  -- the pages from the first to the n-th, one after the other
  abbrev pub pages : ℕ → ℕ → List T → List T
  pages page_size zero rows = []
  pages page_size (suc n) rows =
      pages page_size n rows ++ fetch (record { page = suc n; page_size = page_size }) rows

  take_nil : (b : ℕ) → take {A = T} b [] ≡ []
  take_nil zero = refl
  take_nil (suc b) = refl

  take-add : (a b : ℕ) (xs : List T) → take (a + b) xs ≡ take a xs ++ take b (drop a xs)
  take-add zero b xs = ap (λ n. take n xs) (omega arith)
  take-add (suc a) b [] = ap (λ n. take {A = T} n []) add_suc ∙ sym (take_nil b)
    where
      add_suc : suc a + b ≡ suc (a + b)
      add_suc = omega arith
  take-add (suc a) b (x ∷ xs) =
      ap (λ n. take n (x ∷ xs)) add_suc ∙ ap (λ ys. x ∷ ys) (take-add a b xs)
    where
      add_suc : suc a + b ≡ suc (a + b)
      add_suc = omega arith

  take-all : (n : ℕ) (xs : List T) → length xs ≤ n → take n xs ≡ xs
  take-all zero [] h = refl
  take-all (suc n) [] h = refl
  take-all zero (x ∷ xs) h = ground arith
  take-all (suc n) (x ∷ xs) h = ap (λ ys. x ∷ ys) (take-all n xs (omega (arith, h)))

  pages-take : (s n : ℕ) (rows : List T) → pages s n rows ≡ take (n * s) rows
  unfolding offset limit
  pages-take s zero rows = ap (λ n. take n rows) (zero-mul s)
  pages-take s (suc n) rows =
      ap (λ ys. ys ++ fetch (record { page = suc n; page_size = s }) rows) (pages-take s n rows)
      ∙ ap (λ m. take (n * s) rows ++ take s (drop m rows)) (sub_one n s)
      ∙ sym (take-add (n * s) s rows)
      ∙ ap (λ m. take m rows) (suc-mul n s)

  drop-nonempty :
      (n : ℕ) (xs : List T) (s : ℕ) → 0 < s → (n < length xs) ↔ (take s (drop n xs) ≢ [])
  drop-nonempty zero [] (suc s) h = (λ k. absurd (omega (arith, k)), λ k. absurd (k refl))
  drop-nonempty zero (x ∷ xs) (suc s) h = (λ _ k. cc, λ _. omega arith)
  drop-nonempty (suc n) [] (suc s) h = (λ k. absurd (omega (arith, k)), λ k. absurd (k refl))
  drop-nonempty (suc n) (x ∷ xs) s h = ground (arith, drop-nonempty n xs s h)
  drop-nonempty _ _ zero h = absurd (omega (arith, h))

  total_pages-ceil :
      (r : PaginatedResult T)
      → 0 < r.page_size
      → total_pages r ≡ (r.total + r.page_size - 1) / r.page_size
  unfolding total_pages
  total_pages-ceil r h = ground arith

  lt_total_pages_iff :
      (p : ℕ) (r : PaginatedResult T)
      → 0 < r.page_size
      → (p < total_pages r) ↔ (p * r.page_size < r.total)
  lt_total_pages_iff p r h = rw (total_pages-ceil r h) (lt-total_pages p r.total r.page_size h)

  -- Fetching the pages from the first to the last one that the count of pages names gives every row,
  -- once and in order, for any page size above zero.
  pub total_pages_complete :
      (r : PaginatedResult T) (rows : List T)
      → 0 < r.page_size
      → r.total ≡ length rows
      → pages r.page_size (total_pages r) rows ≡ rows
  unfolding total_pages
  total_pages_complete r rows h t =
      pages-take r.page_size (total_pages r) rows ∙ take-all _ rows enough
    where
      enough : length rows ≤ total_pages r * r.page_size
      enough = ground (arith, lt_total_pages_iff (total_pages r) r h, t)

  -- A page says that there is a next one exactly when fetching the next page returns some row.
  pub has_next_iff :
      (r : PaginatedResult T) (rows : List T)
      → 0 < r.page_size
      → r.total ≡ length rows
      → (has_next r ≡ true)
        ↔ (fetch (record { page = suc r.page; page_size = r.page_size }) rows ≢ [])
  unfolding has_next offset limit
  has_next_iff r rows h t =
      let next = lt_total_pages_iff r.page r h in
      let rest = drop-nonempty (r.page * r.page_size) rows r.page_size h in
      let flag = ltb_iff r.page (total_pages r) in
      rw (sub_one r.page r.page_size) (ground (arith, next, rest, flag, t))
