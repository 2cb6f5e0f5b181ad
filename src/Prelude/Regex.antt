-- ===== src/Prelude/Regex.antt =====
-- Regular expressions of the standard library's `re`: the operators that the patterns of the code use,
-- and `re.match` of a pattern that ends in `$`.
pub mod Decided
pub mod Runs
use Prim.Native.Char.{Char, code}
use Prim.Native.String.{String, [], ◌∷◌}
use Prim.Native.Nat.{ℕ}
use mathlib.Core.Path.{◌≡◌}
use mathlib.Core.Logic.{◌⊎◌}
use mathlib.Core.Bool.{Bool, true, false, ◌&&◌, ◌||◌}
use converse_os.Prelude.Tests.{◌==◌, nat_eq, if◌then◌else◌}

-- A class of characters is a test on the code.
pub data Regex : Type 0 where
  never epsilon : Regex
  chars : (ℕ → Bool) → Regex
  seq alt : Regex → Regex → Regex
  star : Regex → Regex

-- `r+`
abbrev pub plus : Regex → Regex
plus r = seq r (star r)

-- whether the expression matches the empty text
abbrev pub nullable : Regex → Bool
nullable never = false
nullable epsilon = true
nullable (chars p) = false
nullable (seq r q) = nullable r && nullable q
nullable (alt r q) = nullable r || nullable q
nullable (star r) = true

-- what is left of the expression after a character
abbrev pub deriv : Char → Regex → Regex
deriv c never = never
deriv c epsilon = never
deriv c (chars p) = if p (code c) then epsilon else never
deriv c (seq r q) =
    let rest = deriv c q in alt (seq (deriv c r) q) (if nullable r then rest else never)
deriv c (alt r q) = alt (deriv c r) (deriv c q)
deriv c (star r) = seq (deriv c r) (star r)

-- where `$` matches: at the end, and before a newline at the end
abbrev pub at_end : String → Bool
at_end [] = true
at_end (c ∷ []) = code c == 10
at_end (c ∷ d ∷ s) = false

-- `re.match(r"^…$", s) is not None`
unfoldable pub match_end : Regex → String → Bool
match_end r [] = nullable r
match_end r (c ∷ s) = nullable r && at_end (c ∷ s) || match_end (deriv c r) s

-- pieces one after the other
pub data Star (P : String → String → Type 0) : String → String → Type 0 where
  stop : {s t : String} → s ≡ t → Star P s t
  more : {s m t : String} → P s m → Star P m t → Star P s t

abbrev pub TakesChar : (ℕ → Bool) → String → String → Type 0
TakesChar p [] t = ⊥
TakesChar p (c ∷ s) t = (p (code c) ≡ true) × (s ≡ t)

-- What an expression means: it can take a part from the front of `s` and leave `t`.
abbrev pub Takes : Regex → String → String → Type 0
Takes never s t = ⊥
Takes epsilon s t = s ≡ t
Takes (chars p) s t = TakesChar p s t
Takes (seq r q) s t = (m : String) × Takes r s m × Takes q m t
Takes (alt r q) s t = Takes r s t ⊎ Takes q s t
Takes (star r) s t = Star (Takes r) s t
