-- ===== src/Prelude/Counting.antt =====
-- Counting the different members of a list, and the pigeonhole principle.
use Prim.Native.Nat.{◌+◌, ◌≤◌}
use mathlib.Core.Path.{◌≡◌, refl}
use mathlib.Core.Bool.{true, false}
use mathlib.Core.List.{List, [], ◌∷◌}
use mathlib.Core.Logic.{inl, inr}
use native.Mathlib.Omega.{arith}
use converse_os.Prelude.Tests.{Eq, ◌==◌, Bool-cases, if◌then◌else◌}
use converse_os.Prelude.Lists.{length, contains}

module _ {ℓ} {A : Type ℓ} ⦃e : Eq A⦄ where
  -- each member once
  unfoldable pub distinct : List A → List A
  distinct [] = []
  distinct (x ∷ xs) = let rest = distinct xs in if contains x rest then rest else x ∷ rest

  abbrev pub IsDistinct : List A → Type 0
  IsDistinct [] = Unit
  IsDistinct (x ∷ xs) = (contains x xs ≡ false) × IsDistinct xs

  pub distinct-IsDistinct : (xs : List A) → IsDistinct (distinct xs)
  unfolding distinct
  distinct-IsDistinct [] = tt
  distinct-IsDistinct (x ∷ xs) = elim (Bool-cases (contains x (distinct xs))) [
    | inl again ↦ rw again (distinct-IsDistinct xs)
    | inr new ↦ rw new (new, distinct-IsDistinct xs)
  ]

  pub contains-distinct : (a : A) (xs : List A) → contains a (distinct xs) ≡ contains a xs
  unfolding distinct contains
  contains-distinct a [] = refl
  contains-distinct a (x ∷ xs) = ground (arith, contains-distinct a xs, e.equal_iff a x)

  remove : A → List A → List A
  remove a [] = []
  remove a (x ∷ xs) = if a == x then xs else x ∷ remove a xs

  length-remove :
      (a : A) (xs : List A) → contains a xs ≡ true → length (remove a xs) + 1 ≡ length xs
  unfolding remove contains
  length-remove a [] h = cc
  length-remove a (x ∷ xs) h = ground (arith, length-remove a xs)

  contains-remove :
      (a b : A) (xs : List A)
      → contains a xs ≡ true
      → (a == b) ≡ false
      → contains a (remove b xs) ≡ true
  unfolding remove contains
  contains-remove a b [] h k = cc
  contains-remove a b (x ∷ xs) h k =
      ground (arith, contains-remove a b xs, e.equal_iff a x, e.equal_iff b x, e.equal_iff a b)

  contains_head : (x : A) (xs : List A) → contains x (x ∷ xs) ≡ true
  unfolding contains
  contains_head x xs = ground (arith, e.equal_iff x x)

  contains_tail : (a x : A) (xs : List A) → contains a xs ≡ true → contains a (x ∷ xs) ≡ true
  unfolding contains
  contains_tail a x xs m = ground arith

  ne_of_contains :
      (a x : A) (xs : List A) → contains x xs ≡ false → contains a xs ≡ true → (a == x) ≡ false
  ne_of_contains a x xs new m = ground (arith, e.equal_iff a x)

  -- Different members that all stand in `ys` are at most as many as `ys` has.
  pub length-le_of_subset :
      (xs ys : List A)
      → IsDistinct xs
      → ((a : A) → contains a xs ≡ true → contains a ys ≡ true)
      → length xs ≤ length ys
  length-le_of_subset [] ys d h = omega arith
  length-le_of_subset (x ∷ xs) ys (new, d) h =
      let found = h x (contains_head x xs) in
      let rest = length-le_of_subset xs (remove x ys) d (λ a m.
        contains-remove a x ys (h a (contains_tail a x xs m)) (ne_of_contains a x xs new m)) in
      omega (arith, rest, length-remove x ys found)
