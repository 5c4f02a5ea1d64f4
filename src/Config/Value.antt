-- ===== src/Config/Value.antt =====
-- Values of variables, variable-value.c. The union and its tag are a data type with a constructor
-- for each tag; `none` stands for a failed assertion. An integer is written as an int64 and read as
-- an int: the model has the number, which the C code finds where an int lies in the low bytes of an
-- int64.
use robsd.Base.{Bool, true, false, List, [], ◌∷◌, ◌++◌, Option, none, some, Bytes, ℤ, pos}

pub data VariableType : Type 0 where
  invalid_type integer_type string_type directory_type list_type : VariableType

pub data VariableValue : Type 0 where
  invalid : VariableValue
  integer : ℤ → VariableValue
  string : Bytes → VariableValue
  directory : Bytes → VariableValue
  list : List Bytes → VariableValue

-- What `memset` and the switch leave.
unfoldable pub variable_value_init : VariableType → VariableValue
variable_value_init invalid_type = invalid
variable_value_init integer_type = integer (pos 0)
variable_value_init string_type = string []
variable_value_init directory_type = directory []
variable_value_init list_type = list []

unfoldable pub is_variable_value_valid : VariableValue → Bool
is_variable_value_valid invalid = false
is_variable_value_valid _ = true

unfoldable pub variable_value_append : VariableValue → Bytes → Option VariableValue
variable_value_append (list xs) str = some (list (xs ++ str ∷ []))
variable_value_append _ str = none

-- The values of `src` behind those of `dst`, one by one.
unfoldable pub concat_loop : List Bytes → List Bytes → List Bytes
concat_loop dst [] = dst
concat_loop dst (str ∷ src) = concat_loop (dst ++ str ∷ []) src

unfoldable pub variable_value_concat : VariableValue → VariableValue → Option VariableValue
unfolding concat_loop
variable_value_concat (list dst) (list src) = some (list (concat_loop dst src))
variable_value_concat _ _ = none
