-- ===== src/RobsdStep/Listing.antt =====
-- robsd-step -L, `steps_list`: the steps that a configuration gives, from an offset on. The outcome
-- `failed` is a failed assertion in the configuration.
use robsd.Base.{
  ℕ, zero, suc, ◌+◌, ◌-◌, ◌<◌, Bool, true, false, List, [], ◌∷◌, ◌++◌, Option, none, some, ltb, leb,
  if◌then◌else◌, Bytes, codes, length, take, drop, pos, pos_part, Result, done, failed, out_of_fuel,
  ◌≡◌, ◌∙◌, refl, ap, arith, append_assoc,
}
use robsd.Strtonum.{number, strtonum, int_max, print_nat}
use robsd.RobsdStep.{StepActionError, action_error_none, action_error_fatal, action_error_usage}
use robsd.Config.Lex.{Overflow}
use robsd.Config.State.{System, Config}
use robsd.Config.File.{config_alloc, config_parse}
use robsd.Config.Steps.{ArgvStep, config_get_steps}

pub data ListOption : Type 0 where
  opt_config : Bytes → ListOption
  opt_mode : Bytes → ListOption
  opt_offset : Bytes → ListOption
  unknown : ListOption

-- The variables that the options set.
pub record ListOptions : Type 0 where
  pub config_path : Option Bytes
  pub config_mode : Option Bytes
  pub offset : ℕ

abbrev pub no_list_options : ListOptions
no_list_options = record { config_path = none; config_mode = none; offset = 1 }

-- The number of an offset; an error is 0, which is no offset.
unfoldable pub parse_offset : Bytes → ℕ
parse_offset arg = elim (strtonum arg (pos 1) int_max) [ number n ↦ pos_part n | _ ↦ 0 ]

-- The loop over the options: what they set, or an error.
unfoldable pub list_options : List ListOption → ListOptions → StepActionError × ListOptions
unfolding parse_offset
list_options [] v = (action_error_none, v)
list_options (opt_config arg ∷ opts) v = list_options opts (record v { config_path = some arg })
list_options (opt_mode arg ∷ opts) v = list_options opts (record v { config_mode = some arg })
list_options (opt_offset arg ∷ opts) v = elim (parse_offset arg) [
  | zero ↦ (action_error_fatal, v)
  | suc n ↦ list_options opts (record v { offset = suc n })
]
list_options (unknown ∷ opts) v = (action_error_usage, v)

-- The loop that prints the steps, from index `i` on.
unfoldable pub print_steps : ℕ → List ArgvStep → Bytes
print_steps i [] = []
print_steps i (st ∷ sts) =
    print_nat (i + 1)
    ++ b' ' ∷ st.name
    ++ (if st.parallel then codes " parallel" else [])
    ++ b'\n' ∷ print_steps (i + 1) sts

pub list_from : ℕ → List ArgvStep → StepActionError × Bytes
unfolding print_steps
list_from offset steps =
    if leb (length steps) (offset - 1)
    then (action_error_fatal, [])
    else (action_error_none, print_steps (offset - 1) (drop (offset - 1) steps))

-- For what `config_get_steps` gives.
list_got : ℕ → Result (List ArgvStep) → Result (StepActionError × Bytes)
unfolding list_from
list_got offset (done steps) = done (list_from offset steps)
list_got offset failed = done (action_error_fatal, [])
list_got offset out_of_fuel = out_of_fuel

-- For what `config_parse` gives.
list_parsed : System → ℕ → Result Bool × Config → Result (StepActionError × Bytes)
unfolding list_got
list_parsed sys offset (done false, cf) = list_got offset (config_get_steps sys cf false).0
list_parsed sys offset (done true, cf) = done (action_error_fatal, [])
list_parsed sys offset (failed, cf) = failed
list_parsed sys offset (out_of_fuel, cf) = out_of_fuel

list_config : Overflow → System → ℕ → Option Config → Result (StepActionError × Bytes)
unfolding list_parsed
list_config o sys offset none = done (action_error_fatal, [])
list_config o sys offset (some cf) = list_parsed sys offset (config_parse o sys cf)

-- Behind the options.
list_mode :
    Overflow → System → List Bytes → ListOptions → Option Bytes → Result (StepActionError × Bytes)
unfolding list_config
list_mode o sys operands v none = done (action_error_usage, [])
list_mode o sys operands v (some mode) =
    if ltb 0 (length operands)
    then done (action_error_usage, [])
    else list_config o sys v.offset (config_alloc sys mode v.config_path)

list_unless : StepActionError → Result (StepActionError × Bytes) → Result (StepActionError × Bytes)
list_unless action_error_none listing = listing
list_unless error listing = done (error, [])

unfoldable pub steps_list :
    Overflow → System → List ListOption → List Bytes → Result (StepActionError × Bytes)
unfolding list_options list_mode list_unless
steps_list o sys opts operands =
    let r = list_options opts no_list_options in
    list_unless r.0 (list_mode o sys operands r.1 r.1.config_mode)

print_steps-drop :
    (k i : ℕ) (steps : List ArgvStep)
    → print_steps i steps ≡ print_steps i (take k steps) ++ print_steps (i + k) (drop k steps)
unfolding print_steps
print_steps-drop zero i steps = let e : i + 0 ≡ i = omega arith in rw e refl
print_steps-drop (suc k) i [] = refl
print_steps-drop (suc k) i (st ∷ steps) =
    let e : i + 1 + k ≡ i + suc k = omega arith in
    rw (print_steps-drop k (i + 1) steps, e) (simp append_assoc)

-- From an offset on, the listing is the end of the whole listing: the steps have the same numbers.
pub list_from-suffix :
    (k : ℕ) (steps : List ArgvStep)
    → k < length steps
    → (list_from 1 steps).1 ≡ print_steps 0 (take k steps) ++ (list_from (suc k) steps).1
unfolding list_from
list_from-suffix k steps h =
    let nonempty : leb (length steps) 0 ≡ false = ground arith in
    let inside : leb (length steps) k ≡ false = ground arith in
    let same : suc k - 1 ≡ k = omega arith in
    let shifted : 0 + k ≡ k = omega arith in
    rw (nonempty, same, inside)
      (print_steps-drop k 0 steps
        ∙ ap (λ n. print_steps 0 (take k steps) ++ print_steps n (drop k steps)) shifted)
