-- ===== src/Agents/Agent/Settings.antt =====
-- The bounds of the settings of an agent.
use mathlib.Core.Path.{subst}
use converse_os.Prelude.{
  ◌&&◌, ℕ, ◌≡◌, ◌≤◌, refl, ap, String, Option, none, some, Option-cases, inl, inr, List, [], ◌∷◌,
  true, false, Bool, if◌then◌else◌, arith,
}
use converse_os.Prelude.Int.{ℤ, pos, negsuc, leb_ℤ}
use converse_os.Domain.Entity.{BaseEntity}
use converse_os.Agents.Agent.{
  LlmSettings, are_valid, make_settings, default_settings, Agent, settings_or, create,
  update_prompt, update_settings,
}

-- a number from 0 to the bound
abbrev pub IsWithin : ℕ → ℤ → Type 0
IsWithin bound (pos n) = n ≤ bound
IsWithin bound (negsuc n) = ⊥

abbrev pub IsPositive : ℤ → Type 0
IsPositive (pos n) = 1 ≤ n
IsPositive (negsuc n) = ⊥

abbrev pub InRange : LlmSettings → Type 0
InRange s =
    IsWithin 200 s.temperature × IsWithin 100 s.top_p × IsPositive s.top_k × IsPositive s.max_tokens

-- a change of an agent, with the arguments of the construction of the settings
pub data Change : Type 0 where
  prompt : String → Change
  settings : ℤ → ℤ → ℤ → ℤ → Change

-- a change at a time; settings that are not accepted change nothing
abbrev pub apply : Change × ℕ → Agent → Agent
apply (prompt s, now) a = update_prompt s now a
apply (settings t p k m, now) a = elim (make_settings t p k m) [
  | none ↦ a
  | some s ↦ update_settings s now a
]

abbrev pub apply_all : List (Change × ℕ) → Agent → Agent
apply_all [] a = a
apply_all (c ∷ cs) a = apply_all cs (apply c a)

leb-IsWithin :
    (bound : ℕ) (z : ℤ) → leb_ℤ (pos 0) z && leb_ℤ z (pos bound) ≡ true → IsWithin bound z
leb-IsWithin bound (pos n) h = ground arith
leb-IsWithin bound (negsuc n) h = ground arith

leb-IsPositive : (z : ℤ) → leb_ℤ (pos 1) z ≡ true → IsPositive z
leb-IsPositive (pos n) h = ground arith
leb-IsPositive (negsuc n) h = ground arith

both : (a b : Bool) → a && b ≡ true → (a ≡ true) × (b ≡ true)
both a b h = ground arith

are_valid-InRange : (s : LlmSettings) → are_valid s ≡ true → InRange s
unfolding are_valid
are_valid-InRange s h =
    let (floats, numbers) = both _ _ h in
    let (warm, sure) = both _ _ floats in
    let (some_k, some_tokens) = both _ _ numbers in
    (
      leb-IsWithin 200 s.temperature warm,
      leb-IsWithin 100 s.top_p sure,
      leb-IsPositive s.top_k some_k,
      leb-IsPositive s.max_tokens some_tokens,
    )

refused : (s : LlmSettings) → Path (Option LlmSettings) none (some s) → ⊥
refused s h = cc

accepted :
    (made s : LlmSettings) (b : Bool)
    → are_valid made ≡ b
    → (if b then some made else none) ≡ some s
    → InRange s
accepted made s true v h =
    subst InRange (ap (λ o. elim o [ none ↦ made | some x ↦ x ]) h) (are_valid-InRange made v)
accepted made s false v h = absurd (refused s h)

make_settings-InRange : (t p k m : ℤ) (s : LlmSettings) → make_settings t p k m ≡ some s → InRange s
unfolding make_settings
make_settings-InRange t p k m s h =
    accepted (record { temperature = t; top_p = p; top_k = k; max_tokens = m }) s _ refl h

-- settings that a caller can give: none, or such as the construction accepts
abbrev pub IsGiven : Option LlmSettings → Type 0
IsGiven none = Unit
IsGiven (some s) = InRange s

created : (s : Option LlmSettings) → IsGiven s → InRange (settings_or s)
unfolding settings_or default_settings
created none h = ground arith
created (some s) h = h

apply-InRange : (c : Change × ℕ) (a : Agent) → InRange a.settings → InRange (apply c a).settings
unfolding update_prompt update_settings
apply-InRange (prompt s, now) a h = h
apply-InRange (settings t p k m, now) a h = elim (Option-cases (make_settings t p k m)) [
  | inl rejected ↦ rw (rejected, apply) h
  | inr (s, made) ↦ rw (made, apply) (make_settings-InRange t p k m s made)
]

apply_all-InRange :
    (cs : List (Change × ℕ)) (a : Agent) → InRange a.settings → InRange (apply_all cs a).settings
apply_all-InRange [] a h = h
apply_all-InRange (c ∷ cs) a h = apply_all-InRange cs (apply c a) (apply-InRange c a h)

-- Whatever changes an agent goes through after its creation, its temperature is from 0 to 2,
-- its `top_p` from 0 to 1, and its other two settings at least 1, if the settings that it was created with
-- were accepted by the construction, or left out.
pub create-InRange :
    (cs : List (Change × ℕ)) (entity : BaseEntity) (org_id : ℕ)
    (name llm_provider model_name system_prompt : String) (description : Option String)
    (s : Option LlmSettings)
    → IsGiven s
    → InRange
        (apply_all cs
          (create entity org_id name llm_provider model_name system_prompt description s)).settings
unfolding create
create-InRange cs entity org_id name llm_provider model_name system_prompt description s h =
    apply_all-InRange cs _ (created s h)
