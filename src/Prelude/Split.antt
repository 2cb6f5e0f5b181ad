-- ===== src/Prelude/Split.antt =====
-- `str.split` at a separator of one character.
use Prim.Native.Char.{Char, code}
use Prim.Native.String.{String, [], ◌∷◌, ◌++◌}
use Prim.Native.Nat.{ℕ, suc}
use mathlib.Core.Path.{◌≡◌, refl, sym, ap, ◌∙◌}
use mathlib.Core.Logic.{◌≢◌}
use mathlib.Core.Bool.{Bool, true, false}
use mathlib.Core.List.{List, [], ◌∷◌}
use native.Mathlib.Omega.{arith}
use text.Mathlib.TextEquality.{Char-path}
use text.Mathlib.TextLemmas.{nil-append, cons-append}
use converse_os.Prelude.Lists.{All}
use converse_os.Prelude.Tests.{◌==◌, ==_iff, nat_eq, if◌then◌else◌}

-- the number of characters
abbrev pub str_length : String → ℕ
str_length [] = 0
str_length (c ∷ s) = suc (str_length s)

-- a character in front of the first part
abbrev push_front : Char → List String → List String
push_front c [] = (c ∷ "") ∷ []
push_front c (p ∷ ps) = (c ∷ p) ∷ ps

-- `s.split(sep)`
unfoldable pub split : Char → String → List String
split sep [] = "" ∷ []
split sep (c ∷ s) =
    let parts = split sep s in if code c == code sep then "" ∷ parts else push_front c parts

-- `sep.join(parts)`
abbrev pub join : Char → List String → String
join sep [] = ""
join sep (p ∷ []) = p
join sep (p ∷ q ∷ ps) = p ++ (sep ∷ join sep (q ∷ ps))

-- the separator is not in a text
abbrev pub Lacks : Char → String → Type 0
Lacks sep [] = Unit
Lacks sep (c ∷ s) = (code c ≢ code sep) × Lacks sep s

push_front-Lacks :
    (sep c : Char) (ps : List String)
    → code c ≢ code sep
    → All (Lacks sep) ps
    → All (Lacks sep) (push_front c ps)
push_front-Lacks sep c [] h k = ((h, tt), tt)
push_front-Lacks sep c (p ∷ ps) h (k, ks) = ((h, k), ks)

pub split-Lacks : (sep : Char) (s : String) → Lacks sep s → split sep s ≡ s ∷ []
unfolding split
split-Lacks sep [] h = refl
split-Lacks sep (c ∷ s) (h, k) = rw (split-Lacks sep s k) (ground arith)

pub split-append :
    (sep : Char) (p s : String) → Lacks sep p → split sep (p ++ (sep ∷ s)) ≡ p ∷ split sep s
unfolding split
split-append sep [] s h = rw nil-append (ground arith)
split-append sep (c ∷ p) s (h, k) = rw cons-append (rw (split-append sep p s k) (ground arith))

split-nonempty : (sep : Char) (s : String) → split sep s ≢ []
unfolding split
split-nonempty sep [] h = cc
split-nonempty sep (c ∷ s) h = ground arith

join-push_front :
    (sep c : Char) (ps : List String) → ps ≢ [] → join sep (push_front c ps) ≡ c ∷ join sep ps
join-push_front sep c [] h = absurd (h refl)
join-push_front sep c (p ∷ []) h = refl
join-push_front sep c (p ∷ q ∷ ps) h = cons-append c p _

-- what `split` gives is free of the separator
pub split-Lacking : (sep : Char) (s : String) → All (Lacks sep) (split sep s)
unfolding split
split-Lacking sep [] = (tt, tt)
split-Lacking sep (c ∷ s) = ground (arith, split-Lacking sep s, push_front-Lacks sep c)

join-part :
    (sep c : Char) (ps : List String) (b : Bool)
    → ps ≢ []
    → (b ≡ true → c ≡ sep)
    → join sep (if b then "" ∷ ps else push_front c ps) ≡ c ∷ join sep ps
join-part sep c ps false h k = join-push_front sep c ps h
join-part sep c [] true h k = absurd (h refl)
join-part sep c (p ∷ ps) true h k = nil-append _ ∙ ap (λ d. d ∷ join sep (p ∷ ps)) (sym (k refl))

pub join-split : (sep : Char) (s : String) → join sep (split sep s) ≡ s
unfolding split
join-split sep [] = refl
join-split sep (c ∷ s) =
    join-part sep c (split sep s) (code c == code sep) (split-nonempty sep s)
      (λ h. Char-path c sep ((==_iff (code c) (code sep)).0 h))
    ∙ ap (λ t. c ∷ t) (join-split sep s)
