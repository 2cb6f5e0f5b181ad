-- ===== src/Prelude/Regex/Decided.antt =====
-- The matcher decides what the expressions mean.
use Prim.Native.Char.{Char, code}
use Prim.Native.String.{String, [], ◌∷◌}
use mathlib.Core.Path.{◌≡◌, refl, sym, ap, ◌∙◌, subst}
use mathlib.Core.Logic.{◌⊎◌, ◌↔◌, inl, inr}
use mathlib.Core.Bool.{Bool, true, false, ◌&&◌, ◌||◌}
use native.Mathlib.Omega.{arith}
use converse_os.Prelude.Tests.{nat_eq, if◌then◌else◌}
use converse_os.Prelude.Regex.{
  Regex, never, epsilon, chars, seq, alt, star, nullable, deriv, at_end, match_end, Star, stop,
  more, Takes,
}

and_true : (a b : Bool) → (a && b) ≡ true → (a ≡ true) × (b ≡ true)
and_true a b h = ground arith

and_intro : (a b : Bool) → a ≡ true → b ≡ true → (a && b) ≡ true
and_intro a b h k = ground arith

or_left : (a b : Bool) → a ≡ true → (a || b) ≡ true
or_left a b h = ground arith

or_right : (a b : Bool) → b ≡ true → (a || b) ≡ true
or_right a b h = ground arith

or_true : (a b : Bool) → (a || b) ≡ true → (a ≡ true) ⊎ (b ≡ true)
or_true true b h = inl refl
or_true false b h = inr h

-- a nullable expression can take nothing
nullable-Takes : (r : Regex) (s : String) → nullable r ≡ true → Takes r s s
nullable-Takes never s h = cc
nullable-Takes epsilon s h = refl
nullable-Takes (chars p) s h = cc
nullable-Takes (seq r q) s h =
    let (n, k) = and_true (nullable r) (nullable q) h in
    (s, nullable-Takes r s n, nullable-Takes q s k)
nullable-Takes (alt r q) s h = elim (or_true (nullable r) (nullable q) h) [
  | inl n ↦ inl (nullable-Takes r s n)
  | inr n ↦ inr (nullable-Takes q s n)
]
nullable-Takes (star r) s h = stop refl

taken_if :
    (b : Bool) (r : Regex) (s t : String)
    → Takes (if b then r else never) s t
    → (b ≡ true) × Takes r s t
taken_if true r s t h = (refl, h)
taken_if false r s t h = absurd h

if-Takes :
    (b : Bool) (r : Regex) (s t : String)
    → b ≡ true
    → Takes r s t
    → Takes (if b then r else never) s t
if-Takes true r s t h k = k
if-Takes false r s t h k = cc

pub deriv-Takes : (r : Regex) (c : Char) (s t : String) → Takes (deriv c r) s t → Takes r (c ∷ s) t
deriv-Takes never c s t h = h
deriv-Takes epsilon c s t h = absurd h
deriv-Takes (chars p) c s t h = taken_if (p (code c)) epsilon s t h
deriv-Takes (seq r q) c s t (inl (m, x, y)) = (m, deriv-Takes r c s m x, y)
deriv-Takes (seq r q) c s t (inr z) =
    let (n, y) = taken_if (nullable r) (deriv c q) s t z in
    (c ∷ s, nullable-Takes r (c ∷ s) n, deriv-Takes q c s t y)
deriv-Takes (alt r q) c s t (inl x) = inl (deriv-Takes r c s t x)
deriv-Takes (alt r q) c s t (inr x) = inr (deriv-Takes q c s t x)
deriv-Takes (star r) c s t (m, x, y) = more (deriv-Takes r c s m x) y

-- what an expression does at a character: nothing, or it takes the character
abbrev Steps : Regex → Char → String → String → Type 0
Steps r c s t = ((c ∷ s ≡ t) × (nullable r ≡ true)) ⊎ Takes (deriv c r) s t

star-Steps :
    (r : Regex) (c : Char) (s : String)
    → ((m : String) → Takes r (c ∷ s) m → Steps r c s m)
    → (s0 t : String) → s0 ≡ c ∷ s
    → Star (Takes r) s0 t
    → Steps (star r) c s t
star-Steps r c s step s0 t e (stop k) = inl (sym e ∙ k, refl)
star-Steps r c s step s0 t e (more {m = m} x y) = elim (step m (subst (λ z. Takes r z m) e x)) [
  | inl (same, _) ↦ star-Steps r c s step m t (sym same) y
  | inr z ↦ inr (m, z, y)
]

pub Takes-Steps : (r : Regex) (c : Char) (s t : String) → Takes r (c ∷ s) t → Steps r c s t
Takes-Steps never c s t h = inr h
Takes-Steps epsilon c s t h = inl (h, refl)
Takes-Steps (chars p) c s t (k, e) = inr (if-Takes (p (code c)) epsilon s t k e)
Takes-Steps (seq r q) c s t (m, x, y) = elim (Takes-Steps r c s m x) [
  | inl (same, n) ↦ elim (Takes-Steps q c s t (subst (λ z. Takes q z t) (sym same) y)) [
    | inl (end, k) ↦ inl (end, and_intro (nullable r) (nullable q) n k)
    | inr z ↦ inr (inr (if-Takes (nullable r) (deriv c q) s t n z))
  ]
  | inr z ↦ inr (inl (m, z, y))
]
Takes-Steps (alt r q) c s t (inl x) = elim (Takes-Steps r c s t x) [
  | inl (same, n) ↦ inl (same, or_left (nullable r) (nullable q) n)
  | inr z ↦ inr (inl z)
]
Takes-Steps (alt r q) c s t (inr x) = elim (Takes-Steps q c s t x) [
  | inl (same, n) ↦ inl (same, or_right (nullable r) (nullable q) n)
  | inr z ↦ inr (inr z)
]
Takes-Steps (star r) c s t h = star-Steps r c s (λ m. Takes-Steps r c s m) (c ∷ s) t refl h

star_nothing :
    (r : Regex)
    → ((m : String) → Takes r [] m → m ≡ [])
    → (s t : String) → s ≡ []
    → Star (Takes r) s t
    → t ≡ []
star_nothing r nothing s t e (stop k) = sym k ∙ e
star_nothing r nothing s t e (more {m = m} x y) =
    star_nothing r nothing m t (nothing m (subst (λ z. Takes r z m) e x)) y

-- of the empty text nothing is taken
nothing_taken : (r : Regex) (t : String) → Takes r [] t → (t ≡ []) × (nullable r ≡ true)
nothing_taken never t h = absurd h
nothing_taken epsilon t h = (sym h, refl)
nothing_taken (chars p) t h = absurd h
nothing_taken (seq r q) t (m, x, y) =
    let (e, n) = nothing_taken r m x in
    let (f, k) = nothing_taken q t (subst (λ z. Takes q z t) e y) in
    (f, and_intro (nullable r) (nullable q) n k)
nothing_taken (alt r q) t (inl x) =
    let (e, n) = nothing_taken r t x in (e, or_left (nullable r) (nullable q) n)
nothing_taken (alt r q) t (inr x) =
    let (e, n) = nothing_taken q t x in (e, or_right (nullable r) (nullable q) n)
nothing_taken (star r) t h = (star_nothing r (λ m x. (nothing_taken r m x).0) [] t refl h, refl)

-- the expression takes all of the text, but for a newline at the end
abbrev pub TakesAll : Regex → String → Type 0
TakesAll r s = (t : String) × Takes r s t × (at_end t ≡ true)

match_end_sound : (r : Regex) (s : String) → match_end r s ≡ true → TakesAll r s
unfolding match_end
match_end_sound r [] h = ([], nullable-Takes r [] h, refl)
match_end_sound r (c ∷ s) h =
    elim (or_true (nullable r && at_end (c ∷ s)) (match_end (deriv c r) s) h) [
      | inl here ↦
          let (n, e) = and_true (nullable r) (at_end (c ∷ s)) here in
          (c ∷ s, nullable-Takes r (c ∷ s) n, e)
      | inr later ↦
          let (t, x, e) = match_end_sound (deriv c r) s later in (t, deriv-Takes r c s t x, e)
    ]

match_end_complete :
    (r : Regex) (s t : String) → Takes r s t → at_end t ≡ true → match_end r s ≡ true
unfolding match_end
match_end_complete r [] t x e = (nothing_taken r t x).1
match_end_complete r (c ∷ s) t x e = elim (Takes-Steps r c s t x) [
  | inl (same, n) ↦
      or_left (nullable r && at_end (c ∷ s)) (match_end (deriv c r) s)
        (and_intro (nullable r) (at_end (c ∷ s)) n (ap at_end same ∙ e))
  | inr y ↦
      or_right (nullable r && at_end (c ∷ s)) (match_end (deriv c r) s)
        (match_end_complete (deriv c r) s t y e)
]

-- A pattern that ends in `$` matches exactly the texts of which its expression takes all, or all but
-- a newline at the end.
pub match_end_iff : (r : Regex) (s : String) → (match_end r s ≡ true) ↔ TakesAll r s
match_end_iff r s = (match_end_sound r s, λ (t, x, e). match_end_complete r s t x e)
