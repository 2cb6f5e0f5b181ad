-- ===== src/Infrastructure/Url/Secrets.antt =====
-- What the URL that is logged shows of the password.
use Prim.Native.Char.{Char}
use Prim.Native.String.{[], ◌∷◌, ◌++◌}
use text.Mathlib.TextLemmas.{append_assoc, nil-append, cons-append}
use converse_os.Prelude.{ℕ, ◌≡◌, refl, sym, ap, ◌∙◌, String, none, some, arith}
use converse_os.Prelude.Split.{Lacks}
use converse_os.Prelude.Decimal.{decimal}
use converse_os.Infrastructure.Url.{split_once, rsplit_once, sanitize_url, build_database_url}

append-Lacks : (sep : Char) (p q : String) → Lacks sep p → Lacks sep q → Lacks sep (p ++ q)
append-Lacks sep [] q h k = rw nil-append k
append-Lacks sep (c ∷ p) q (h, hs) k = rw cons-append (h, append-Lacks sep p q hs k)

split_once-append :
    (sep : Char) (p s : String) → Lacks sep p → split_once sep (p ++ (sep ∷ s)) ≡ some (p, s)
unfolding split_once
split_once-append sep [] s h = rw nil-append (ground arith)
split_once-append sep (c ∷ p) s (h, k) =
    rw cons-append (rw (split_once-append sep p s k) (ground arith))

rsplit_once-Lacks : (sep : Char) (s : String) → Lacks sep s → rsplit_once sep s ≡ none
unfolding rsplit_once
rsplit_once-Lacks sep [] h = refl
rsplit_once-Lacks sep (c ∷ s) (h, k) = rw (rsplit_once-Lacks sep s k) (ground arith)

rsplit_once-append :
    (sep : Char) (p s : String) → Lacks sep s → rsplit_once sep (p ++ (sep ∷ s)) ≡ some (p, s)
unfolding rsplit_once
rsplit_once-append sep [] s h = rw nil-append (rw (rsplit_once-Lacks sep s h) (ground arith))
rsplit_once-append sep (c ∷ p) s h =
    rw cons-append (rw (rsplit_once-append sep p s h, rsplit_once) refl)

singleton-append : (c : Char) (s : String) → (c ∷ "") ++ s ≡ c ∷ s
singleton-append c s = cons-append c "" s ∙ ap (λ t. c ∷ t) (nil-append s)

-- a URL whose user part ends with a password
sanitize_url-prefix :
    (first password rest : String)
    → Lacks "@" first
    → Lacks "@" password
    → Lacks ":" password
    → sanitize_url ((first ++ (":" ∷ password)) ++ ("@" ∷ rest)) ≡ first ++ ":***@" ++ rest
unfolding sanitize_url
sanitize_url-prefix first password rest hf ha hc =
    rw
      (
        split_once-append "@" (first ++ (":" ∷ password)) rest
            (append-Lacks "@" first (":" ∷ password) hf (omega arith, ha)),
        sanitize_url,
      )
      (rw (rsplit_once-append ":" first password hc) refl)

-- what stands before the user's name
abbrev scheme : String → String
scheme driver = "postgresql+" ++ driver ++ "://"

scheme-Lacks : (driver : String) → Lacks "@" driver → Lacks "@" (scheme driver)
scheme-Lacks driver h =
    append-Lacks "@" "postgresql+" (driver ++ "://") (ground arith)
      (append-Lacks "@" driver "://" h (ground arith))

starred : (rest : String) → ":***@" ++ rest ≡ ":" ++ "***" ++ "@" ++ rest
starred rest = append_assoc ":" "***@" rest ∙ ap (λ s. ":" ++ s) (append_assoc "***" "@" rest)

-- The URL of a database that is logged has three stars in place of the password, whatever the
-- password is, and the rest as it was, if the password holds no `@` and no colon, and the driver and
-- the user's name hold no `@`.
pub sanitize_url-build :
    (host : String) (port : ℕ) (user password database driver : String)
    → Lacks "@" driver
    → Lacks "@" user
    → Lacks "@" password
    → Lacks ":" password
    → sanitize_url (build_database_url host port user password database driver)
      ≡ build_database_url host port user "***" database driver
unfolding build_database_url
sanitize_url-build host port user password database driver hd hu ha hc =
    ap sanitize_url split_shape
    ∙ sanitize_url-prefix (scheme driver ++ user) password
        (host ++ ":" ++ decimal port ++ "/" ++ database)
        (append-Lacks "@" (scheme driver) user (scheme-Lacks driver hd) hu) ha hc
    ∙ ap (λ s. (scheme driver ++ user) ++ s) (starred _)
    ∙ back
  where
    after : String
    after = host ++ ":" ++ decimal port ++ "/" ++ database

    split_shape :
        build_database_url host port user password database driver
        ≡ ((scheme driver ++ user) ++ (":" ∷ password)) ++ ("@" ∷ after)
    split_shape = simp append_assoc (
        rw (sym (singleton-append ":" password), sym (singleton-append "@" after))
          (simp append_assoc))

    back :
        (scheme driver ++ user) ++ ":" ++ "***" ++ "@" ++ after
        ≡ build_database_url host port user "***" database driver
    back = simp append_assoc

-- The part of a password after an `@` stays in the URL that is logged, as if it began the name of
-- the host, if what comes before it holds no `@` and no colon, and the driver and the user's name
-- hold no `@`.
pub sanitize_url-leaks :
    (host : String) (port : ℕ) (user first last database driver : String)
    → Lacks "@" driver
    → Lacks "@" user
    → Lacks "@" first
    → Lacks ":" first
    → sanitize_url (build_database_url host port user (first ++ "@" ++ last) database driver)
      ≡ build_database_url (last ++ "@" ++ host) port user "***" database driver
unfolding build_database_url
sanitize_url-leaks host port user first last database driver hd hu ha hc =
    ap sanitize_url (simp append_assoc)
    ∙ sanitize_url-build (last ++ "@" ++ host) port user first database driver hd hu ha hc
