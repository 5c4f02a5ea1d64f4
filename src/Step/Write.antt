-- ===== src/Step/Write.antt =====
-- Writing a step file: `steps_header`, `step_interpolate_lookup`, `step_serialize` and
-- `steps_write` of step.c.
--
-- VECTOR_SORT is not part of this repository's own code: it is the argument `sort`. The result of
-- `steps_write` is what it hands to fwrite(3), with the sorted file; opening and writing the file
-- are not modelled.
use robsd.Base.{
  Bool, true, false, List, [], ◌∷◌, ◌++◌, Option, none, some, if◌then◌else◌, Bytes, ℤ, Result, done,
  failed, out_of_fuel,
}
use robsd.Interpolate.{interpolate_buffer}
use robsd.Strtonum.{print_int}
use robsd.Step.{
  Step, StepFile, StepField, StepFieldType, unknown, string, integer, str_of, integer_of,
  FieldDefinition, fields, field_at, field_definition_find_by_name, step_cmp,
}

-- The names behind the first, each with a comma before it.
header_names : Bool → List FieldDefinition → Bytes
header_names first [] = b'\n' ∷ []
header_names first (fd ∷ fds) =
    let name = fd.fd_name ++ header_names false fds in if first then name else b',' ∷ name

unfoldable pub steps_header : Bytes
unfolding header_names
steps_header = header_names true fields

unfoldable pub field_text : StepFieldType → StepField → Option Bytes
field_text unknown f = none
field_text string f = some (str_of f.sf_val)
field_text integer f = some (print_int (integer_of f.sf_val))

unfoldable pub step_interpolate_lookup : Step → Bytes → Option Bytes
unfolding field_text
step_interpolate_lookup st name = elim (field_definition_find_by_name name) [
  | none ↦ none
  | some fd ↦ field_text (field_at st fd.fd_index).sf_type (field_at st fd.fd_index)
]

-- The template that `step_serialize` makes: each name as a variable, with commas between.
template_from : Bool → List FieldDefinition → Bytes
template_from first [] = b'\n' ∷ []
template_from first (fd ∷ fds) =
    let text = b'$' ∷ b'{' ∷ fd.fd_name ++ b'}' ∷ template_from false fds in
    if first then text else b',' ∷ text

unfoldable pub step_template : Bytes
unfolding template_from
step_template = template_from true fields

unfoldable pub step_serialize : Step → Bytes → Result Bytes
step_serialize st out =
    (interpolate_buffer {S = Unit {0}} (λ name s. (step_interpolate_lookup st name, s)) false
      step_template out tt).0

-- The loop of `steps_write`.
unfoldable pub serialize_all : List Step → Bytes → Result Bytes
serialize_all [] bf = done bf
serialize_all (st ∷ sts) bf = elim (step_serialize st bf) [
  | done bf' ↦ serialize_all sts bf'
  | failed ↦ failed
  | out_of_fuel ↦ out_of_fuel
]

module _ (sort : (Step → Step → ℤ) → List Step → List Step) where
  unfoldable pub steps_sort : List Step → List Step
  steps_sort steps = sort step_cmp steps

  unfoldable pub steps_write : StepFile → Result Bytes × StepFile
  steps_write sf =
      let sorted = steps_sort sf.steps in
      (serialize_all sorted steps_header, record sf { steps = sorted })
