-- ===== src/Step.antt =====
-- Steps and their fields, step.c and step.h.
--
-- A step is the vector of its fields, in the order of the table `fields`; a file is its columns and
-- its steps. The union `step_value` is a data type, with a constructor for the zeroed union. The
-- lock that a step file holds is not modelled, nor are the messages. The pointer to a step that
-- `steps_find_by_name` and `steps_find_by_id` return is the index of the step.
pub mod Lex
pub mod Parse
pub mod Write
pub mod Fields
pub mod Complete
pub mod Assigned
pub mod Find
pub mod Duration
pub mod Stored
pub mod RoundTrip
use robsd.Base.{
  ℕ, zero, suc, ◌+◌, Bool, true, false, not, List, [], ◌∷◌, ◌++◌, Option, none, some, ltb, ◌==◌,
  if◌then◌else◌, Bytes, codes, str_eq, strchr, length, get_or, set, replicate, map, ℤ, pos, negsuc,
  eqb_ℤ, ltb_ℤ, ◌+ℤ◌, ◌-ℤ◌, Result, done, failed, out_of_fuel,
}
use robsd.Mode.{RobsdMode, robsd_regress}
use robsd.Strtonum.{
  Number, number, invalid, too_small, too_large, strtonum, llong_min, llong_max, print_int,
}

pub data StepFieldType : Type 0 where
  unknown string integer : StepFieldType

pub data StepValue : Type 0 where
  zeroed : StepValue
  str : Bytes → StepValue
  int64 : ℤ → StepValue

-- The members of the union.
abbrev pub str_of : StepValue → Bytes
str_of (str s) = s
str_of _ = []

abbrev pub integer_of : StepValue → ℤ
integer_of (int64 v) = v
integer_of _ = pos 0

pub record StepField : Type 0 where
  pub sf_type : StepFieldType
  pub sf_val : StepValue

pub record Step : Type 0 where
  pub st_fields : List StepField

pub record StepFile : Type 0 where
  pub columns : List Bytes
  pub steps : List Step

pub record FieldDefinition : Type 0 where
  pub fd_name : Bytes
  pub fd_type : StepFieldType
  pub fd_index : ℕ
  pub fd_optional : Bool
  pub fd_default : Bytes

abbrev mandatory : Bytes → StepFieldType → ℕ → FieldDefinition
mandatory name type index = record {
  fd_name = name;
  fd_type = type;
  fd_index = index;
  fd_optional = false;
  fd_default = [];
}

abbrev optional : Bytes → StepFieldType → ℕ → Bytes → FieldDefinition
optional name type index default = record {
  fd_name = name;
  fd_type = type;
  fd_index = index;
  fd_optional = true;
  fd_default = default;
}

abbrev pub fields : List FieldDefinition
fields =
    mandatory (codes "step") integer 0
    ∷ mandatory (codes "name") string 1
    ∷ mandatory (codes "exit") integer 2
    ∷ mandatory (codes "duration") integer 3
    ∷ optional (codes "delta") integer 4 (codes "0")
    ∷ optional (codes "log") string 5 (codes "")
    ∷ mandatory (codes "user") string 6
    ∷ mandatory (codes "time") integer 7
    ∷ optional (codes "skip") integer 8 (codes "0")
    ∷ []

abbrev pub nfields : ℕ
nfields = 9

-- The loop of `field_definition_find_by_name` over the table.
unfoldable pub find_definition : List FieldDefinition → Bytes → Option FieldDefinition
unfolding str_eq
find_definition [] name = none
find_definition (fd ∷ fds) name =
    if str_eq fd.fd_name name then some fd else find_definition fds name

unfoldable pub field_definition_find_by_name : Bytes → Option FieldDefinition
unfolding find_definition
field_definition_find_by_name name = find_definition fields name

-- What VECTOR_CALLOC puts into a vector of fields.
abbrev pub no_field : StepField
no_field = record { sf_type = unknown; sf_val = zeroed }

abbrev pub field_at : Step → ℕ → StepField
field_at st i = get_or st.st_fields i no_field

abbrev pub set_field_at : Step → ℕ → StepField → Step
set_field_at st i f = record { st_fields = set st.st_fields i f }

unfoldable pub step_field_is_empty : StepField → Bool
step_field_is_empty f = elim f.sf_type [ string ↦ false | integer ↦ false | unknown ↦ true ]

-- The result is `true` for 1, an error; the field has its new type then, and its old value.
set_value : Step → FieldDefinition → StepFieldType → Bytes → Bool × Step
set_value st fd string val =
    (false, set_field_at st fd.fd_index (record { sf_type = string; sf_val = str val }))
set_value st fd integer val = elim (strtonum val llong_min llong_max) [
  | number v ↦ (false, set_field_at st fd.fd_index (record { sf_type = integer; sf_val = int64 v }))
  | _ ↦ (
    true,
    set_field_at st fd.fd_index
        (record { sf_type = integer; sf_val = (field_at st fd.fd_index).sf_val }),
  )
]
set_value st fd unknown val = (
  true,
  set_field_at st fd.fd_index
      (record { sf_type = unknown; sf_val = (field_at st fd.fd_index).sf_val }),
)

unfoldable pub step_set_field : Step → Bytes → Bytes → Bool × Step
unfolding set_value field_definition_find_by_name
step_set_field st name val = elim (field_definition_find_by_name name) [
  | none ↦ (true, st)
  | some fd ↦ set_value st fd fd.fd_type val
]

unfoldable pub step_set_field_integer : Step → Bytes → ℤ → Bool × Step
unfolding field_definition_find_by_name
step_set_field_integer st name val = elim (field_definition_find_by_name name) [
  | none ↦ (true, st)
  | some fd ↦
      (false, set_field_at st fd.fd_index (record { sf_type = integer; sf_val = int64 val }))
]

unfoldable pub step_get_field : Step → Bytes → Option StepValue
unfolding field_definition_find_by_name
step_get_field st name = elim (field_definition_find_by_name name) [
  | none ↦ none
  | some fd ↦ some (field_at st fd.fd_index).sf_val
]

-- `step_get_field(st, name)->integer` and `->str`, for a name in the table.
abbrev pub value_or_zeroed : Option StepValue → StepValue
value_or_zeroed none = zeroed
value_or_zeroed (some v) = v

unfoldable pub get_integer : Step → Bytes → ℤ
unfolding step_get_field
get_integer st name = integer_of (value_or_zeroed (step_get_field st name))

unfoldable pub get_str : Step → Bytes → Bytes
unfolding step_get_field
get_str st name = str_of (value_or_zeroed (step_get_field st name))

-- The second loop of `step_init`: the defaults of the optional fields.
set_defaults : List FieldDefinition → Step → Bool × Step
unfolding step_set_field
set_defaults [] st = (false, st)
set_defaults (fd ∷ fds) st = elim fd.fd_optional [
  | false ↦ set_defaults fds st
  | true ↦
      let r = step_set_field st fd.fd_name fd.fd_default in
      let rest = set_defaults fds r.1 in if r.0 then (true, r.1) else rest
]

unfoldable pub step_init : Bool × Step
unfolding set_defaults
step_init = set_defaults fields (record { st_fields = replicate nfields no_field })

-- The text before the first `=`, and the text behind it; a step that cannot be set is an error.
unfoldable pub step_set_keyval : Step → Bytes → Bool × Step
unfolding step_set_field
step_set_keyval st kv = elim (strchr kv b'=') [
  | none ↦ (true, st)
  | some (key, val) ↦ step_set_field st key val
]

-- The number of mandatory fields that are empty; `step_validate` reports each, and fails if there
-- is one.
missing_fields : Step → List FieldDefinition → ℕ
missing_fields st [] = 0
missing_fields st (fd ∷ fds) =
    let rest = missing_fields st fds in
    if fd.fd_optional
    then rest
    else if step_field_is_empty (field_at st fd.fd_index)
    then suc rest
    else rest

unfoldable pub step_validate : Step → Bool
unfolding missing_fields step_field_is_empty
step_validate st = ltb 0 (missing_fields st fields)

-- Index of the first step that passes a test, from index `i` on.
unfoldable pub find_index : (Step → Bool) → ℕ → List Step → Option ℕ
find_index test i [] = none
find_index test i (st ∷ sts) = if test st then some i else find_index test (i + 1) sts

unfoldable pub has_name : Bytes → Step → Bool
has_name name st =
    let f = field_at st 1 in if step_field_is_empty f then false else str_eq (str_of f.sf_val) name

unfoldable pub has_id : ℤ → Step → Bool
has_id id st =
    let f = field_at st 0 in if step_field_is_empty f then false else eqb_ℤ (integer_of f.sf_val) id

unfoldable pub steps_find_by_name : List Step → Bytes → Option ℕ
unfolding find_index has_name step_field_is_empty str_eq
steps_find_by_name steps name = find_index (has_name name) 0 steps

unfoldable pub steps_find_by_id : List Step → ℤ → Option ℕ
unfolding find_index has_id step_field_is_empty
steps_find_by_id steps id = find_index (has_id id) 0 steps

-- The result of `steps_alloc` is a zeroed step at the end of the vector; `step_init` fills it.
abbrev pub steps_append : StepFile → Step → StepFile
steps_append sf st = record sf { steps = sf.steps ++ st ∷ [] }

unfoldable pub step_cmp : Step → Step → ℤ
step_cmp a b =
    let x = integer_of (field_at a 0).sf_val in
    let y = integer_of (field_at b 0).sf_val in
    if ltb_ℤ x y then negsuc 0 else if ltb_ℤ y x then pos 1 else pos 0
