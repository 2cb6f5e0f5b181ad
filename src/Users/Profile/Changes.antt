-- ===== src/Users/Profile/Changes.antt =====
-- What a sequence of changes makes of a profile.
use converse_os.Prelude.{ℕ, ◌≡◌, refl, ◌∙◌, String, Option, none, some, List, [], ◌∷◌, map}
use converse_os.Users.Profile.{UserProfile, ProfileChange, changed, replaced, update_profile}

abbrev pub update_all : List (ProfileChange × ℕ) → UserProfile → UserProfile
update_all [] p = p
update_all ((c, now) ∷ cs) p = update_all cs (update_profile c now p)

-- the last value that was given, if one was
abbrev pub latest : List (Option String) → Option String
latest [] = none
latest (o ∷ os) = elim (latest os) [ none ↦ o | some v ↦ some v ]

changed-latest :
    (os : List (Option String)) (o old : Option String)
    → changed (latest os) (changed o old) ≡ changed (latest (o ∷ os)) old
unfolding changed
changed-latest os o old =
    elim (latest os)
      as (λ l. changed l (changed o old) ≡ changed (elim l [ none ↦ o | some v ↦ some v ]) old) [
        | none ↦ refl
        | some v ↦ refl
      ]

replaced-latest :
    (os : List (Option String)) (o : Option String) (old : String)
    → replaced (latest os) (replaced o old) ≡ replaced (latest (o ∷ os)) old
unfolding replaced
replaced-latest os o old =
    elim (latest os)
      as (λ l. replaced l (replaced o old) ≡ replaced (elim l [ none ↦ o | some v ↦ some v ]) old) [
        | none ↦ refl
        | some v ↦ refl
      ]

-- After any sequence of updates each field of the profile holds the last value that was given for it,
-- or, if none was given, what it held at first; the address, the preferences and the identifier are
-- what they were.
pub update_all-latest :
    (cs : List (ProfileChange × ℕ)) (p : UserProfile)
    → let after = update_all cs p in
      (after.first_name ≡ changed (latest (map (λ c. c.0.first_name) cs)) p.first_name)
      × (after.last_name ≡ changed (latest (map (λ c. c.0.last_name) cs)) p.last_name)
      × (after.avatar_url ≡ changed (latest (map (λ c. c.0.avatar_url) cs)) p.avatar_url)
      × (after.timezone ≡ replaced (latest (map (λ c. c.0.timezone) cs)) p.timezone)
      × (after.email ≡ p.email)
      × (after.preferences ≡ p.preferences)
      × (after.root.entity.id ≡ p.root.entity.id)
unfolding update_profile
update_all-latest [] p = (refl, refl, refl, refl, refl, refl, refl)
update_all-latest ((c, now) ∷ cs) p =
    let (first, last, avatar, zone, email, preferences, id) =
      update_all-latest cs (update_profile c now p) in
    (
      first ∙ changed-latest (map (λ d. d.0.first_name) cs) c.first_name p.first_name,
      last ∙ changed-latest (map (λ d. d.0.last_name) cs) c.last_name p.last_name,
      avatar ∙ changed-latest (map (λ d. d.0.avatar_url) cs) c.avatar_url p.avatar_url,
      zone ∙ replaced-latest (map (λ d. d.0.timezone) cs) c.timezone p.timezone,
      email,
      preferences,
      id,
    )
