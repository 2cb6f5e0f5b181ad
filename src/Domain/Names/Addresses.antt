-- ===== src/Domain/Names/Addresses.antt =====
-- Which texts are addresses.
use Prim.Native.Char.{Char, code}
use Prim.Native.String.{[], ◌∷◌, ◌++◌}
use mathlib.Core.Path.{subst}
use text.Mathlib.TextEquality.{Char-path}
use converse_os.Prelude.{
  ℕ, String, ◌≡◌, refl, sym, ap, ◌∙◌, ◌↔◌, none, some, if◌then◌else◌, Bool, true, false, ◌==◌,
  ==_iff, nat_eq,
}
use converse_os.Prelude.Strip.{strip}
use converse_os.Prelude.Regex.{at_end, match_end, TakesChar}
use converse_os.Prelude.Regex.Runs.{SomeOf, plus_sound, plus_complete}
use converse_os.Prelude.Regex.Decided.{TakesAll, match_end_iff}
use converse_os.Domain.Names.{is_letter, is_domain_code, is_local_code, email_pattern, make_email}

char_sound :
    (p : ℕ → Bool) (s t : String) → TakesChar p s t → (c : Char) × (s ≡ c ∷ t) × (p (code c) ≡ true)
char_sound p [] t h = absurd h
char_sound p (c ∷ s) t (k, e) = (c, ap (λ z. c ∷ z) e, k)

literal_sound : (d : Char) (s t : String) → TakesChar (λ n. n == code d) s t → s ≡ d ∷ t
literal_sound d [] t h = absurd h
literal_sound d (c ∷ s) t (k, e) =
    ap (λ z. z ∷ s) (Char-path c d ((==_iff (code c) (code d)).0 k)) ∙ ap (λ z. d ∷ z) e

-- A text of the form local@domain.letters, with at least two letters of a-z or A-Z at the end, but for
-- a newline after them.
pub record IsAddress (v : String) : Type 0 where
  pub local : String
  pub domain : String
  pub letter : Char
  pub letters : String
  pub ending : String
  pub local_codes : SomeOf is_local_code local
  pub domain_codes : SomeOf is_domain_code domain
  pub first_letter : is_letter (code letter) ≡ true
  pub more_letters : SomeOf is_letter letters
  pub written : v ≡ local ++ ("@" ∷ (domain ++ ("." ∷ (letter ∷ (letters ++ ending)))))
  pub ends : at_end ending ≡ true

email_pattern-IsAddress : (v : String) → TakesAll email_pattern v → IsAddress v
email_pattern-IsAddress v (t, (m1, x1, (m2, x2, (m3, x3, (m4, x4, (m5, x5, x6))))), e) =
    let (l, e1, s1) = plus_sound is_local_code v m1 x1 in
    let e2 = literal_sound "@" m1 m2 x2 in
    let (d, e3, s3) = plus_sound is_domain_code m2 m3 x3 in
    let e4 = literal_sound "." m3 m4 x4 in
    let (c, e5, s5) = char_sound is_letter m4 m5 x5 in
    let (w, e6, s6) = plus_sound is_letter m5 t x6 in
    record {
      local = l;
      domain = d;
      letter = c;
      letters = w;
      ending = t;
      local_codes = s1;
      domain_codes = s3;
      first_letter = s5;
      more_letters = s6;
      written =
          e1
          ∙ ap (λ r. l ++ r)
              (e2
                ∙ ap (λ r. "@" ∷ r)
                    (e3 ∙ ap (λ r. d ++ r) (e4 ∙ ap (λ r. "." ∷ r) (e5 ∙ ap (λ r. c ∷ r) e6))));
      ends = e;
    }

address_complete : (v : String) → IsAddress v → TakesAll email_pattern v
address_complete v h =
    let m5 = h.letters ++ h.ending in
    let m4 = h.letter ∷ m5 in
    let m3 = "." ∷ m4 in
    let m2 = h.domain ++ m3 in
    let m1 = "@" ∷ m2 in
    subst (TakesAll email_pattern) (sym h.written) (
      h.ending,
      (
        m1,
        plus_complete is_local_code h.local m1 h.local_codes,
        (
          m2,
          (refl, refl),
          (
            m3,
            plus_complete is_domain_code h.domain m3 h.domain_codes,
            (
              m4,
              (refl, refl),
              (
                m5,
                (h.first_letter, refl),
                plus_complete is_letter h.letters h.ending h.more_letters,
              ),
            ),
          ),
        ),
      ),
      h.ends,
    )

matched_some : (b : Bool) (v : String) → ((if b then some v else none) ≡ some v) ↔ (b ≡ true)
matched_some true v = (λ h. refl, λ h. refl)
matched_some false v = (λ h. cc, λ h. cc)

-- An address is accepted, and kept in lower case and stripped, exactly if it is characters of the local
-- part, an at sign, characters of a domain, a dot and at least two letters; a newline after them is
-- accepted too.
pub make_email_iff :
    (lower : String → String) (v : String)
    → (make_email lower v ≡ some (strip (lower v))) ↔ IsAddress v
unfolding make_email
make_email_iff lower v =
    let matched = match_end email_pattern v in
    let accepted = matched_some matched (strip (lower v)) in
    (
      λ h. email_pattern-IsAddress v ((match_end_iff email_pattern v).0 (accepted.0 h)),
      λ address. accepted.1 ((match_end_iff email_pattern v).1 (address_complete v address)),
    )
