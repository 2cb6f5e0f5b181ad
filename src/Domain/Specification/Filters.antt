-- ===== src/Domain/Specification/Filters.antt =====
-- Whether the parameters of a query say what the specification says.
use mathlib.Core.Bool.{and_assoc}
use converse_os.Prelude.{
  String, ◌≡◌, refl, sym, ap, ◌∙◌, none, some, [], ◌∷◌, Bool, true, false, not, ◌&&◌, ◌||◌, ◌==◌,
  string_eq, if◌then◌else◌, Bool-cases, inl, inr,
}
use converse_os.Prelude.Dict.{Dict, lookup, insert, update}
use converse_os.Domain.Value.{
  Value, Values, Fields, null, bool, num, str, list, dict, nil, cons, end, field, fields_of,
}
use converse_os.Domain.Specification.{
  Specification, basic, and_spec, or_spec, not_spec, is_satisfied_by, to_query_params,
}

and_true : (b : Bool) → (b && true) ≡ b
and_true true = refl
and_true false = refl

or_padded : (a b : Bool) → (a || b) ≡ ((a || (b || false)) && true)
or_padded true b = refl
or_padded false true = refl
or_padded false false = refl

regroup : (a b c : Bool) → ((a && (b && true)) && c) ≡ (a && (b && c))
regroup true true c = refl
regroup true false c = refl
regroup false b c = refl

module _ {T : Type 0} (holds : String → Value → T → Bool) where
  -- What a filter says: all of its entries. `_or` has a list of filters, one of which is met, and
  -- `_not` a filter that is not met; what any other entry says of an entity is given by `holds`.
  abbrev mutual
    pub matches : Fields → T → Bool
    matches end entity = true
    matches (field k v fs) entity =
        (if k == "_or"
          then matches_any v entity
          else if k == "_not"
          then not (matches_dict v entity)
          else holds k v entity)
        && matches fs entity

    matches_any : Value → T → Bool
    matches_any (list vs) entity = matches_some vs entity
    matches_any null entity = false
    matches_any (bool b) entity = false
    matches_any (num n) entity = false
    matches_any (str s) entity = false
    matches_any (dict fs) entity = false

    matches_some : Values → T → Bool
    matches_some nil entity = false
    matches_some (cons v vs) entity = matches_dict v entity || matches_some vs entity

    matches_dict : Value → T → Bool
    matches_dict (dict fs) entity = matches fs entity
    matches_dict null entity = false
    matches_dict (bool b) entity = false
    matches_dict (num n) entity = false
    matches_dict (str s) entity = false
    matches_dict (list vs) entity = false

  -- no key of the second dict is in the first, or in the second twice
  abbrev pub AreApart : Dict String Value → Dict String Value → Type 0
  AreApart d [] = Unit
  AreApart d ((k, v) ∷ u) = (lookup k d ≡ none) × AreApart (insert k v d) u

  -- The two sides of each conjunction share no key, and each basic specification tests what its
  -- parameters say.
  abbrev pub IsTranslatable : Specification T → Type 0
  IsTranslatable (basic test params) = (e : T) → test e ≡ matches (fields_of params) e
  IsTranslatable (and_spec left right) =
      IsTranslatable left
      × IsTranslatable right
      × AreApart (to_query_params left) (to_query_params right)
  IsTranslatable (or_spec left right) = IsTranslatable left × IsTranslatable right
  IsTranslatable (not_spec spec) = IsTranslatable spec

  matches-first :
      (k : String) (v : Value) (fs : Fields) (e : T)
      → matches (field k v fs) e ≡ (matches (field k v end) e && matches fs e)
  matches-first k v fs e = ap (λ b. b && matches fs e) (sym (and_true _))

  matches-insert :
      (k : String) (v : Value) (d : Dict String Value) (e : T)
      → lookup k d ≡ none
      → matches (fields_of (insert k v d)) e
        ≡ (matches (fields_of d) e && matches (field k v end) e)
  unfolding lookup insert
  matches-insert k v [] e h = refl
  matches-insert k v ((j, w) ∷ d) e h = elim (Bool-cases (j == k)) [
    | inl same ↦
        let found : some w ≡ none = ap (λ b. if b then some w else lookup k d) (sym same) ∙ h in cc
    | inr differ ↦
        let absent : lookup k d ≡ none =
          ap (λ b. if b then some w else lookup k d) (sym differ) ∙ h in
        rw differ (
          matches-first j w (fields_of (insert k v d)) e
          ∙ ap (λ b. matches (field j w end) e && b) (matches-insert k v d e absent)
          ∙ sym (
              and_assoc (matches (field j w end) e) (matches (fields_of d) e)
                (matches (field k v end) e))
          ∙ ap (λ b. b && matches (field k v end) e) (sym (matches-first j w (fields_of d) e)))
  ]

  matches-update :
      (d u : Dict String Value) (e : T)
      → AreApart d u
      → matches (fields_of (update d u)) e ≡ (matches (fields_of d) e && matches (fields_of u) e)
  unfolding update
  matches-update d [] e h = sym (and_true _)
  matches-update d ((k, v) ∷ u) e (h, hs) =
      matches-update (insert k v d) u e hs
      ∙ ap (λ b. b && matches (fields_of u) e) (matches-insert k v d e h)
      ∙ regroup (matches (fields_of d) e) _ (matches (fields_of u) e)

  -- Where the two sides of each conjunction share no key, and each basic specification tests what its
  -- parameters say, the parameters of a specification say of every entity what the specification
  -- says: an entity satisfies the specification exactly if it meets the filter.
  pub is_satisfied_by-matches :
      (spec : Specification T) (e : T)
      → IsTranslatable spec
      → is_satisfied_by spec e ≡ matches (fields_of (to_query_params spec)) e
  unfolding is_satisfied_by to_query_params
  is_satisfied_by-matches (basic test params) e h = h e
  is_satisfied_by-matches (and_spec left right) e (hl, hr, apart) =
      rw (is_satisfied_by-matches left e hl, is_satisfied_by-matches right e hr)
        (sym (matches-update (to_query_params left) (to_query_params right) e apart))
  is_satisfied_by-matches (or_spec left right) e (hl, hr) =
      rw (is_satisfied_by-matches left e hl, is_satisfied_by-matches right e hr) (or_padded _ _)
  is_satisfied_by-matches (not_spec spec) e h =
      rw (is_satisfied_by-matches spec e h) (sym (and_true _))

-- The parameters of the conjunction of two disjunctions are those of the second one alone: the first
-- is lost.
pub to_query_params-and_or :
    {T : Type 0} (s t u w : Specification T)
    → to_query_params (and_spec (or_spec s t) (or_spec u w)) ≡ to_query_params (or_spec u w)
unfolding to_query_params update insert
to_query_params-and_or s t u w = refl
