-- ===== src/Domain/Names/Slugs.antt =====
-- Which texts are slugs.
use Prim.Native.Char.{Char, code}
use Prim.Native.String.{[], ◌∷◌, ◌++◌}
use mathlib.Core.Path.{subst}
use mathlib.Core.List.{[] as nil, ◌∷◌ as cons}
use text.Mathlib.TextEquality.{Char-path}
use text.Mathlib.TextLemmas.{nil-append, cons-append, append-nil, append_assoc}
use converse_os.Prelude.{
  String, ◌≡◌, refl, sym, ap, ◌∙◌, ◌↔◌, none, some, if◌then◌else◌, false, List, Bool, true, ◌&&◌,
  leb, All, ==_iff, nat_eq, arith,
}
use converse_os.Prelude.Split.{str_length, join}
use converse_os.Prelude.Regex.{Regex, chars, seq, plus, at_end, match_end, Star, stop, more, Takes}
use converse_os.Prelude.Regex.Runs.{SomeOf, plus_sound, plus_complete}
use converse_os.Prelude.Regex.Decided.{TakesAll, match_end_iff}
use converse_os.Domain.Names.{is_slug_code, is_dash, slug_pattern, make_slug}

-- a word: letters of a-z and digits alone, at least one
abbrev pub Word : String → Type 0
Word w = SomeOf is_slug_code w

-- the words after the first, each behind a dash
abbrev dashed : List String → String
dashed nil = ""
dashed (cons w ws) = "-" ∷ (w ++ dashed ws)

dash_code : (c : Char) → is_dash (code c) ≡ true → c ≡ "-"
dash_code c h = Char-path c "-" ((==_iff (code c) b'-').0 h)

dash_word : Regex
dash_word = seq (chars is_dash) (plus (chars is_slug_code))

dashed_append :
    (w : String) (ws : List String) (t : String)
    → dashed (cons w ws) ++ t ≡ "-" ∷ (w ++ (dashed ws ++ t))
dashed_append w ws t =
    cons-append "-" (w ++ dashed ws) t ∙ ap (λ r. "-" ∷ r) (append_assoc w (dashed ws) t)

dashed_sound :
    (s t : String)
    → Star (Takes dash_word) s t
    → (ws : List String) × (s ≡ dashed ws ++ t) × All Word ws
unfolding dash_word
dashed_sound s t (stop e) = (nil, e ∙ sym (nil-append t), tt)
dashed_sound [] t (more (n, x, y) z) = absurd x
dashed_sound (c ∷ s) t (more {m = m} (n, (k, e), y) z) =
    let (w, same, word) = plus_sound is_slug_code n m y in
    let (ws, rest, words) = dashed_sound m t z in
    (
      cons w ws,
      ap (λ d. d ∷ s) (dash_code c k)
          ∙ ap (λ r. "-" ∷ r) (e ∙ same ∙ ap (λ r. w ++ r) rest)
          ∙ sym (dashed_append w ws t),
      (word, words),
    )

dashed_complete :
    (ws : List String) (t : String) → All Word ws → Star (Takes dash_word) (dashed ws ++ t) t
unfolding dash_word
dashed_complete nil t h = stop (nil-append t)
dashed_complete (cons w ws) t (word, words) =
    subst (λ z. Star (Takes dash_word) z t) (sym (dashed_append w ws t))
      (more {s = "-" ∷ (w ++ (dashed ws ++ t))} {m = dashed ws ++ t}
        (w ++ (dashed ws ++ t), (refl, refl), plus_complete is_slug_code w (dashed ws ++ t) word)
        (dashed_complete ws t words))

join-dashed : (w : String) (ws : List String) → join "-" (cons w ws) ≡ w ++ dashed ws
join-dashed w nil = sym (append-nil w)
join-dashed w (cons v ws) = ap (λ r. w ++ ("-" ∷ r)) (join-dashed v ws)

-- A text that is words joined by dashes, but for a newline at the end.
pub record IsSlug (v : String) : Type 0 where
  pub first : String
  pub rest : List String
  pub ending : String
  pub words : All Word (cons first rest)
  pub joined : v ≡ join "-" (cons first rest) ++ ending
  pub ends : at_end ending ≡ true

slug_pattern-IsSlug : (v : String) → TakesAll slug_pattern v → IsSlug v
unfolding dash_word
slug_pattern-IsSlug v (t, (m, x, y), e) =
    let (w, same, word) = plus_sound is_slug_code v m x in
    let (ws, others, words) = dashed_sound m t y in
    record {
      first = w;
      rest = ws;
      ending = t;
      words = (word, words);
      joined =
          same
          ∙ ap (λ r. w ++ r) others
          ∙ sym (append_assoc w (dashed ws) t)
          ∙ ap (λ r. r ++ t) (sym (join-dashed w ws));
      ends = e;
    }

slug_complete : (v : String) → IsSlug v → TakesAll slug_pattern v
unfolding dash_word
slug_complete v h =
    let joined =
      h.joined
      ∙ ap (λ r. r ++ h.ending) (join-dashed h.first h.rest)
      ∙ append_assoc h.first (dashed h.rest) h.ending in
    subst (TakesAll slug_pattern) (sym joined) (
      h.ending,
      (
        dashed h.rest ++ h.ending,
        plus_complete is_slug_code h.first (dashed h.rest ++ h.ending) h.words.0,
        dashed_complete h.rest h.ending h.words.1,
      ),
      h.ends,
    )

guarded_some :
    (a b : Bool) (v : String) → (if a && b then some v else none) ≡ some v → (a ≡ true) × (b ≡ true)
guarded_some true true v h = (refl, refl)
guarded_some true false v h = cc
guarded_some false b v h = cc

some_guarded :
    (a b : Bool) (v : String) → a ≡ true → b ≡ true → (if a && b then some v else none) ≡ some v
some_guarded a b v h k = ground arith

-- A slug is accepted, and kept as it is, exactly if it has at most 128 characters and is one or more
-- words of lower-case letters and digits, joined by dashes; a newline after the last word is accepted
-- and kept as well.
pub make_slug_iff :
    (v : String) → (make_slug v ≡ some v) ↔ (leb (str_length v) 128 ≡ true) × IsSlug v
unfolding make_slug
make_slug_iff v =
    let fits = leb (str_length v) 128 in
    let matched = match_end slug_pattern v in
    (
      λ h.
          let (short, good) = guarded_some fits matched v h in
          (short, slug_pattern-IsSlug v ((match_end_iff slug_pattern v).0 good)),
      λ (short, slug).
          some_guarded fits matched v short
            ((match_end_iff slug_pattern v).1 (slug_complete v slug)),
    )
