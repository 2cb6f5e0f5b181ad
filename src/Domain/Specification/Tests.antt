-- ===== src/Domain/Specification/Tests.antt =====
-- The theorems on filters of an entity that is a status and an owner.
use converse_os.Prelude.{String, ◌≡◌, refl, [], ◌∷◌, Bool, false, ◌==◌, string_eq, if◌then◌else◌}
use converse_os.Prelude.Dict.{lookup}
use converse_os.Domain.Value.{Value, null, bool, num, str, list, dict, fields_of}
use converse_os.Domain.Specification.{
  Specification, basic, and_spec, not_spec, is_satisfied_by, to_query_params,
}
use converse_os.Domain.Specification.Filters.{matches, IsTranslatable, is_satisfied_by-matches}

record Row : Type 0 where
  status : String
  owner : String

abbrev is_text : Value → String → Bool
is_text (str s) t = s == t
is_text null t = false
is_text (bool b) t = false
is_text (num n) t = false
is_text (list vs) t = false
is_text (dict fs) t = false

abbrev field_is : String → Value → Row → Bool
field_is k v row = if k == "status" then is_text v row.status else is_text v row.owner

-- an instance of a subclass that compares one field
abbrev has_status : String → Specification Row
has_status s =
    basic (λ row. matches field_is (fields_of (("status", str s) ∷ [])) row)
      (("status", str s) ∷ [])

abbrev has_owner : String → Specification Row
has_owner s =
    basic (λ row. matches field_is (fields_of (("owner", str s) ∷ [])) row) (("owner", str s) ∷ [])

abbrev mine : Specification Row
mine = and_spec (has_owner "me") (not_spec (has_status "closed"))

abbrev row : Row
row = record { status = "open"; owner = "me" }

mine-IsTranslatable : IsTranslatable field_is mine
unfolding to_query_params lookup
mine-IsTranslatable = ((λ e. refl), (λ e. refl), (refl, tt))

is_satisfied_by-matches_example :
    is_satisfied_by mine row ≡ matches field_is (fields_of (to_query_params mine)) row
is_satisfied_by-matches_example = is_satisfied_by-matches field_is mine row mine-IsTranslatable
