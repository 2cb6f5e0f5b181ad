-- ===== src/Domain/Specification.antt =====
-- domain/specification.py: specifications and their composition. A subclass gives a test of an entity
-- and the parameters of a query.
pub mod Filters
mod Tests
use converse_os.Prelude.{String, [], ◌∷◌, Bool, not, ◌&&◌, ◌||◌, string_eq}
use converse_os.Prelude.Dict.{Dict, update}
use converse_os.Domain.Value.{Value, list, dict, nil, cons, fields_of}

-- `basic` is an instance of a subclass of the user, with its two methods.
pub data Specification (T : Type 0) : Type 0 where
  basic : (T → Bool) → Dict String Value → Specification T
  and_spec or_spec : Specification T → Specification T → Specification T
  not_spec : Specification T → Specification T

module _ {T : Type 0} where
  unfoldable pub is_satisfied_by : Specification T → T → Bool
  is_satisfied_by (basic test params) entity = test entity
  is_satisfied_by (and_spec left right) entity =
      is_satisfied_by left entity && is_satisfied_by right entity
  is_satisfied_by (or_spec left right) entity =
      is_satisfied_by left entity || is_satisfied_by right entity
  is_satisfied_by (not_spec spec) entity = not (is_satisfied_by spec entity)

  unfoldable pub to_query_params : Specification T → Dict String Value
  unfolding update
  to_query_params (basic test params) = params
  to_query_params (and_spec left right) = update (to_query_params left) (to_query_params right)
  to_query_params (or_spec left right) =
      (
        "_or",
        list (
            cons (dict (fields_of (to_query_params left)))
              (cons (dict (fields_of (to_query_params right))) nil)),
      )
      ∷ []
  to_query_params (not_spec spec) = ("_not", dict (fields_of (to_query_params spec))) ∷ []
