-- ===== src/Domain/ValueObjects.antt =====
-- domain/value_objects.py: money and time ranges. `str.upper` is a parameter, and a construction is
-- `none` where it raises a validation error. Email, slug and sort order are in Names;
-- the pages are in Pagination.
use Prim.Native.String.{◌++◌}
use converse_os.Prelude.{
  ℕ, ◌*◌, ◌+◌, String, Option, none, some, Bool, false, ltb, ◌==◌, nat_eq, string_eq, if◌then◌else◌,
  Result, ok, raise,
}
use converse_os.Prelude.Int.{ℤ, pos_part, neg_part, sub_ℕ}
use converse_os.Prelude.Split.{str_length}
use converse_os.Domain.Exceptions.{Exn, value_error}

abbrev add_ℤ : ℤ → ℤ → ℤ
add_ℤ a b = sub_ℕ (pos_part a + pos_part b) (neg_part a + neg_part b)

abbrev mul_ℤ : ℤ → ℤ → ℤ
mul_ℤ a b =
    sub_ℕ (pos_part a * pos_part b + neg_part a * neg_part b)
      (pos_part a * neg_part b + neg_part a * pos_part b)

-- The amount is in the smallest unit of the currency.
pub record Money : Type 0 where
  pub amount : ℤ
  pub currency : String

-- the lengths are checked before the validator makes the text upper case
unfoldable pub make_money : (String → String) → ℤ → String → Option Money
make_money upper amount currency =
    if str_length currency == 3
    then some (record { amount = amount; currency = upper currency })
    else none

-- a construction inside a method, which raises if it is not valid
abbrev constructed : Option Money → Result Exn Money
constructed none = raise (value_error "currency")
constructed (some m) = ok m

unfoldable pub add_money : (String → String) → Money → Money → Result Exn Money
unfolding make_money
add_money upper a b =
    if a.currency == b.currency
    then constructed (make_money upper (add_ℤ a.amount b.amount) a.currency)
    else raise (value_error ("Cannot add " ++ a.currency ++ " and " ++ b.currency))

unfoldable pub multiply_money : (String → String) → Money → ℤ → Result Exn Money
unfolding make_money
multiply_money upper a factor = constructed (make_money upper (mul_ℤ a.amount factor) a.currency)

pub record TimeRange : Type 0 where
  pub start : Option ℕ
  pub end : Option ℕ

-- whether the end is before the start
abbrev ends_early : Option ℕ → Option ℕ → Bool
ends_early none end = false
ends_early (some s) none = false
ends_early (some s) (some e) = ltb e s

unfoldable pub make_time_range : Option ℕ → Option ℕ → Option TimeRange
make_time_range start end =
    if ends_early start end then none else some (record { start = start; end = end })
