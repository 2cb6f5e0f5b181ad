-- ===== src/Prelude/Strip.antt =====
-- `str.strip` without an argument, and the whitespace that it removes.
use Prim.Native.Char.{code}
use Prim.Native.String.{String, [], ◌∷◌}
use Prim.Native.Nat.{ℕ}
use mathlib.Core.Path.{◌≡◌, refl}
use mathlib.Core.Bool.{Bool, true, false, ◌&&◌, ◌||◌}
use converse_os.Prelude.Tests.{◌==◌, nat_eq, leb, if◌then◌else◌}

-- `str.isspace` of one character, by its code
unfoldable pub is_space : ℕ → Bool
is_space n =
    leb 9 n && leb n 13
    || leb 28 n && leb n 32
    || n == 133
    || n == 160
    || n == 5760
    || leb 8192 n && leb n 8202
    || n == 8232
    || n == 8233
    || n == 8239
    || n == 8287
    || n == 12288

unfoldable pub lstrip : String → String
unfolding is_space
lstrip [] = ""
lstrip (c ∷ s) = let rest = lstrip s in if is_space (code c) then rest else c ∷ s

abbrev is_empty : String → Bool
is_empty [] = true
is_empty (c ∷ s) = false

unfoldable pub rstrip : String → String
unfolding is_space
rstrip [] = ""
rstrip (c ∷ s) = let rest = rstrip s in if is_empty rest && is_space (code c) then "" else c ∷ rest

unfoldable pub strip : String → String
unfolding lstrip rstrip
strip s = rstrip (lstrip s)

strip_test : strip "  org_admin " ≡ "org_admin"
unfolding strip
strip_test = refl
