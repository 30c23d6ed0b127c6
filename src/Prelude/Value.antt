-- ===== src/Prelude/Value.antt =====
-- The values of a JSON or TOML document, as the parsers of the standard library return them.
use mathlib.Core.Bool.{Bool}
use mathlib.Core.List.{List, [], ◌∷◌}
use mathlib.Core.Option.{Option, none, some}
use smartenit_rescue.Prelude.Tests.{◌===◌, if◌then◌else◌}
use smartenit_rescue.Prelude.Number.{ℤ, Float}
use smartenit_rescue.Prelude.Result.{Text}
use smartenit_rescue.Prelude.Text.{text_eq}

mutual
  pub data Value : Type 0 where
    null : Value
    bool : Bool → Value
    int : ℤ → Value
    float : Float → Value
    str : Text → Value
    list : Items → Value
    dict : Fields → Value
    -- a value of another type: TOML has dates and times
    other : Value

  pub data Items : Type 0 where
    nil : Items
    cons : Value → Items → Items

  -- string keys only: neither parser makes others
  pub data Fields : Type 0 where
    end : Fields
    field : Text → Value → Fields → Fields

-- the items of a list, in order
unfoldable pub items : Items → List Value
items nil = []
items (cons v vs) = v ∷ items vs

-- `value.get(key)`, where `none` stands for the missing key
unfoldable pub get : Text → Fields → Option Value
get k end = none
get k (field j v fs) = if j === k then some v else get k fs

-- `set(value)`: the keys
unfoldable pub field_names : Fields → List Text
field_names end = []
field_names (field j v fs) = j ∷ field_names fs

-- A literal list, and a literal object.
abbrev pub list_of : List Value → Items
list_of [] = nil
list_of (v ∷ vs) = cons v (list_of vs)

abbrev pub dict_of : List (Text × Value) → Fields
dict_of [] = end
dict_of ((k, v) ∷ fs) = field k v (dict_of fs)
