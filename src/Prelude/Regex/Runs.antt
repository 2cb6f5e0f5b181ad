-- ===== src/Prelude/Regex/Runs.antt =====
-- Runs of characters of a class: what `r*` and `r+` take.
use Prim.Native.Char.{code}
use Prim.Native.String.{String, [], ◌∷◌, ◌++◌}
use Prim.Native.Nat.{ℕ}
use mathlib.Core.Path.{◌≡◌, refl, sym, ap, ◌∙◌, subst}
use mathlib.Core.Bool.{Bool, true}
use text.Mathlib.TextLemmas.{nil-append, cons-append}
use converse_os.Prelude.Regex.{chars, plus, Star, stop, more, Takes}

-- characters of the class alone
abbrev pub AllOf : (ℕ → Bool) → String → Type 0
AllOf p [] = Unit
AllOf p (c ∷ s) = (p (code c) ≡ true) × AllOf p s

-- at least one of them
abbrev pub SomeOf : (ℕ → Bool) → String → Type 0
SomeOf p [] = ⊥
SomeOf p (c ∷ s) = (p (code c) ≡ true) × AllOf p s

module _ (p : ℕ → Bool) where
  pub run_sound :
      (s t : String) → Star (Takes (chars p)) s t → (x : String) × (s ≡ x ++ t) × AllOf p x
  run_sound s t (stop e) = ("", e ∙ sym (nil-append t), tt)
  run_sound [] t (more x y) = absurd x
  run_sound (c ∷ s) t (more {m = m} (k, e) y) =
      let (x, same, alnum) = run_sound m t y in
      (c ∷ x, ap (λ z. c ∷ z) (e ∙ same) ∙ sym (cons-append c x t), (k, alnum))

  pub run_complete : (x t : String) → AllOf p x → Star (Takes (chars p)) (x ++ t) t
  run_complete [] t h = stop (nil-append t)
  run_complete (c ∷ x) t (k, h) =
      subst (λ z. Star (Takes (chars p)) z t) (sym (cons-append c x t))
        (more {s = c ∷ (x ++ t)} {m = x ++ t} (k, refl) (run_complete x t h))

  pub plus_sound :
      (s t : String) → Takes (plus (chars p)) s t → (w : String) × (s ≡ w ++ t) × SomeOf p w
  plus_sound [] t (m, x, y) = absurd x
  plus_sound (c ∷ s) t (m, (k, e), y) =
      let (x, same, alnum) = run_sound m t y in
      (c ∷ x, ap (λ z. c ∷ z) (e ∙ same) ∙ sym (cons-append c x t), (k, alnum))

  pub plus_complete : (w t : String) → SomeOf p w → Takes (plus (chars p)) (w ++ t) t
  plus_complete [] t h = absurd h
  plus_complete (c ∷ x) t (k, h) =
      subst (λ z. Takes (plus (chars p)) z t) (sym (cons-append c x t))
        (x ++ t, (k, refl), run_complete x t h)
