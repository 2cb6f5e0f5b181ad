-- ===== src/Infrastructure/Url.antt =====
-- infrastructure/cache.py and infrastructure/database.py: `_sanitize_url`, which both managers have,
-- and `build_database_url`.
pub mod Secrets
mod Tests
use Prim.Native.Char.{Char, code}
use Prim.Native.String.{[], ◌∷◌, ◌++◌}
use converse_os.Prelude.{ℕ, String, Option, none, some, ◌==◌, nat_eq, if◌then◌else◌}
use converse_os.Prelude.Decimal.{decimal}

-- the parts of `url.split(sep, 1)`, where the separator is in the text
unfoldable pub split_once : Char → String → Option (String × String)
split_once sep [] = none
split_once sep (c ∷ s) =
    let later = split_once sep s in
    if code c == code sep
    then some ("", s)
    else elim later [ none ↦ none | some (p, r) ↦ some (c ∷ p, r) ]

-- the parts of `prefix.rsplit(sep, 1)`, where the separator is in the text
unfoldable pub rsplit_once : Char → String → Option (String × String)
rsplit_once sep [] = none
rsplit_once sep (c ∷ s) = elim (rsplit_once sep s) [
  | some (p, r) ↦ some (c ∷ p, r)
  | none ↦ if code c == code sep then some ("", s) else none
]

unfoldable pub sanitize_url : String → String
unfolding split_once rsplit_once
sanitize_url url = elim (split_once "@" url) [
  | none ↦ url
  | some (prefix, rest) ↦ elim (rsplit_once ":" prefix) [
    | none ↦ url
    | some (first, _) ↦ first ++ ":***@" ++ rest
  ]
]

unfoldable pub build_database_url : String → ℕ → String → String → String → String → String
build_database_url host port user password database driver =
    "postgresql+"
    ++ driver
    ++ "://"
    ++ user
    ++ ":"
    ++ password
    ++ "@"
    ++ host
    ++ ":"
    ++ decimal port
    ++ "/"
    ++ database
