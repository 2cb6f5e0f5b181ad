-- ===== src/Domain/Value.antt =====
-- Values of type `Any` that the code passes on: what JSON can hold. Numbers are those that occur
-- here (limits, counts), which are not negative.
use converse_os.Prelude.{ℕ, String, Bool, Option, none, some, List, [], ◌∷◌}
use converse_os.Prelude.Dict.{Dict}

mutual
  pub data Value : Type 0 where
    null : Value
    bool : Bool → Value
    num : ℕ → Value
    str : String → Value
    list : Values → Value
    dict : Fields → Value

  pub data Values : Type 0 where
    nil : Values
    cons : Value → Values → Values

  pub data Fields : Type 0 where
    end : Fields
    field : String → Value → Fields → Fields

-- a list of texts as a value
abbrev pub strs : List String → Values
strs [] = nil
strs (s ∷ ss) = cons (str s) (strs ss)

-- a dict as a value
abbrev pub fields_of : Dict String Value → Fields
fields_of [] = end
fields_of ((k, v) ∷ d) = field k v (fields_of d)

-- a text, or `None`
abbrev pub nullable : Option String → Value
nullable none = null
nullable (some s) = str s
