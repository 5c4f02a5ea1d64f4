-- ===== src/RobsdStep.antt =====
-- The program robsd-step.c, which reads and writes a step file.
--
-- The options of an action are what getopt(3) returns in turn, with their arguments, and `operands`
-- is what it leaves. The checks of pledge(2) and unveil(2), the arenas and the messages are not
-- modelled. The number of steps is taken to fit an int.
pub mod Select
pub mod Update
pub mod Listing
use robsd.Base.{
  ℕ, zero, suc, ◌+◌, ◌-◌, Bool, true, false, not, ◌&&◌, ◌||◌, List, [], ◌∷◌, ◌++◌, Option, none,
  some, ltb, leb, ◌==◌, if◌then◌else◌, Bytes, codes, length, get_or, set, ℤ, pos, negsuc, eqb_ℤ,
  Result, done, failed, out_of_fuel,
}
use robsd.Interpolate.{interpolate_file}
use robsd.Strtonum.{Number, number, strtonum, int_max}
use robsd.Step.{
  Step, StepFile, steps_find_by_name, steps_find_by_id, steps_append, step_init,
  step_set_field_integer, step_set_keyval,
}
use robsd.Step.Write.{step_interpolate_lookup, steps_header, steps_write}

pub data StepActionError : Type 0 where
  action_error_none action_error_fatal action_error_usage : StepActionError

-- An option with its argument; `other` stands for what getopt(3) does not know.
pub data StepOption : Type 0 where
  opt_id : Bytes → StepOption
  opt_name : Bytes → StepOption
  opt_header : StepOption
  other : StepOption

abbrev minus_int_max : ℤ
minus_int_max = negsuc 2147483646

unfoldable pub parse_id : Bytes → Option ℤ
parse_id str = elim (strtonum str minus_int_max int_max) [ number id ↦ some id | _ ↦ none ]

-- The loop over the options of `steps_read`: the name and the number, or an error.
unfoldable pub read_options :
    List StepOption → Option Bytes → ℤ → StepActionError × Option Bytes × ℤ
unfolding parse_id
read_options [] name id = (action_error_none, name, id)
read_options (opt_id arg ∷ opts) name id = elim (parse_id arg) [
  | none ↦ (action_error_fatal, name, id)
  | some id' ↦ read_options opts name id'
]
read_options (opt_name arg ∷ opts) name id = read_options opts (some arg) id
read_options (_ ∷ opts) name id = (action_error_usage, name, id)

-- The step with a number, as an index: from the first for a positive number, and from the last for
-- a negative one.
unfoldable pub by_number : List Step → ℤ → Option ℕ
by_number steps (pos zero) = none
by_number steps (pos (suc n)) = if ltb n (length steps) then some n else none
by_number steps (negsuc n) =
    if leb (suc n) (length steps) then some (length steps - suc n) else none

unfoldable pub select : List Step → Option Bytes → ℤ → Option ℕ
unfolding by_number
select steps none id = by_number steps id
select steps (some name) id = steps_find_by_name steps name

abbrev pub zeroed_step : Step
zeroed_step = record { st_fields = [] }

-- What `steps_read` prints for the selected step; `stdin` is the template.
print_step : StepFile → Option (List Bytes) → Option ℕ → StepActionError × Bytes
print_step sf stdin none = (action_error_fatal, [])
print_step sf stdin (some i) =
    let st = get_or sf.steps i zeroed_step in
    let r =
      interpolate_file {S = Unit {0}} (λ name s. (step_interpolate_lookup st name, s)) false stdin
        tt in
    elim r.0 [
      | done str ↦ (action_error_none, str)
      | failed ↦ (action_error_fatal, [])
      | out_of_fuel ↦ (action_error_fatal, [])
    ]

abbrev is_some : Option Bytes → Bool
is_some none = false
is_some (some name) = true

unfoldable pub steps_read :
    StepFile → List StepOption → List Bytes → Option (List Bytes) → StepActionError × Bytes
unfolding read_options select print_step
steps_read sf opts operands stdin =
    let r = read_options opts none (pos 0) in
    elim r.0 [
      | action_error_fatal ↦ (action_error_fatal, [])
      | action_error_usage ↦ (action_error_usage, [])
      | action_error_none ↦
          if ltb 0 (length operands)
          then (action_error_usage, [])
          else if is_some r.1 && not (eqb_ℤ r.2 (pos 0))
          then (action_error_fatal, [])
          else print_step sf stdin (select sf.steps r.1 r.2)
    ]

unfoldable pub write_options : List StepOption → Bool → ℤ → StepActionError × Bool × ℤ
unfolding parse_id
write_options [] doheader id = (action_error_none, doheader, id)
write_options (opt_header ∷ opts) doheader id = write_options opts true id
write_options (opt_id arg ∷ opts) doheader id = elim (parse_id arg) [
  | none ↦ (action_error_fatal, doheader, id)
  | some id' ↦ write_options opts doheader id'
]
write_options (_ ∷ opts) doheader id = (action_error_usage, doheader, id)

-- The loop over the operands; `none` is an error.
unfoldable pub set_keyvals : List Bytes → Step → Option Step
set_keyvals [] st = some st
set_keyvals (kv ∷ kvs) st =
    let r = step_set_keyval st kv in elim r.0 [ true ↦ none | false ↦ set_keyvals kvs r.1 ]

-- The step that is found is changed in its place, and a new one stands at the end.
store_at : StepFile → ℕ → Option Step → Option StepFile
store_at sf i none = none
store_at sf i (some st) = some (record sf { steps = set sf.steps i st })

store_new : StepFile → Option Step → Option StepFile
store_new sf none = none
store_new sf (some st) = some (steps_append sf st)

-- The step file with the step `id` set, or `none` for an error.
unfoldable pub update_step : StepFile → ℤ → List Bytes → Option StepFile
unfolding set_keyvals store_at store_new
update_step sf id kvs = elim (steps_find_by_id sf.steps id) [
  | some i ↦ store_at sf i (set_keyvals kvs (get_or sf.steps i zeroed_step))
  | none ↦
      if step_init.0
      then none
      else let r = step_set_field_integer step_init.1 (codes "step") id in
        if r.0 then none else store_new sf (set_keyvals kvs r.1)
]

module _ (sort : (Step → Step → ℤ) → List Step → List Step) where
  written : Result Bytes × StepFile → StepActionError × Bytes × Option Bytes
  written (done text, sf) = (action_error_none, [], some text)
  written (_, sf) = (action_error_fatal, [], none)

  save : Option StepFile → StepActionError × Bytes × Option Bytes
  unfolding written
  save none = (action_error_fatal, [], none)
  save (some sf) = written (steps_write sort sf)

  -- The error, what is printed, and what is written to the step file, if it is written.
  unfoldable pub action_write :
      StepFile → List StepOption → List Bytes → StepActionError × Bytes × Option Bytes
  unfolding write_options update_step save
  action_write sf opts operands =
      let r = write_options opts false (pos 0) in
      elim r.0 [
        | action_error_fatal ↦ (action_error_fatal, [], none)
        | action_error_usage ↦ (action_error_usage, [], none)
        | action_error_none ↦
            if not r.1 && (length operands == 0 || eqb_ℤ r.2 (pos 0))
            then (action_error_usage, [], none)
            else if r.1
            then (action_error_none, steps_header, none)
            else save (update_step sf r.2 operands)
      ]
