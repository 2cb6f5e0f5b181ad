-- ===== src/Prelude/Case.antt =====
-- `str.lower`, as far as the code compares its result with a name of lower-case ASCII letters.
use Prim.Native.Char.{code}
use Prim.Native.String.{String, [], ◌∷◌}
use Prim.Native.Nat.{ℕ, ◌+◌}
use mathlib.Core.Path.{◌≡◌, refl}
use mathlib.Core.Bool.{Bool, true, false, ◌&&◌}
use mathlib.Core.List.{List, [], ◌∷◌}
use mathlib.Core.Bool.{◌||◌}
use converse_os.Prelude.Tests.{◌==◌, nat_eq, leb, if◌then◌else◌}

-- the code of a character's lower case, if it is an ASCII letter: those of the capitals, and of the
-- Kelvin sign, whose lower case is "k"
abbrev lower_code : ℕ → ℕ
lower_code n = if leb b'A' n && leb n b'Z' then n + 32 else if n == 8490 then b'k' else n

-- `a.lower() == b`
unfoldable pub is_name : String → String → Bool
is_name [] [] = true
is_name (c ∷ a) (d ∷ b) = lower_code (code c) == code d && is_name a b
is_name _ _ = false

-- `a.lower() in names`
unfoldable pub is_one_of : String → List String → Bool
unfolding is_name
is_one_of a [] = false
is_one_of a (b ∷ names) = is_name a b || is_one_of a names

is_one_of_test : is_one_of "API_Key" ("token" ∷ "api_key" ∷ []) ≡ true
unfolding is_one_of
is_one_of_test = refl
