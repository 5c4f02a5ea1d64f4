-- ===== src/Config/Steps.antt =====
-- The steps of a configuration: `config_get_steps` of conf.c, and the callback `get_steps` of each
-- mode.
--
-- `none` and `failed` stand for a NULL pointer where a string or a list is wanted, and the latter for
-- the result NULL as well.
pub mod Order
pub mod Parallel
pub mod Searches
pub mod Argv
use robsd.Base.{
  Bool, true, false, not, List, [], ◌∷◌, ◌++◌, Option, none, some, if◌then◌else◌, Bytes, codes, map,
  ℤ, pos, eqb_ℤ, Result, done, failed, out_of_fuel,
}
use robsd.Mode.{plain_robsd, robsd_cross, robsd_ports, robsd_regress, canvas}
use robsd.Config.Value.{VariableValue, invalid, integer, string, directory, list}
use robsd.Config.Grammar.Tables.{StepEntry}
use robsd.Config.State.{System, Config, ConfigStep, config_find, config_interpolate_str}
use robsd.Config.Regress.{regressname}

unfoldable pub script_step : Bytes → Bytes → ConfigStep
script_step script step_name = record {
  name = step_name;
  command = list (codes "sh" ∷ codes "-eu" ∷ codes "${trace}" ∷ script ∷ step_name ∷ []);
  parallel = false;
}

unfoldable pub config_steps_add_script : List ConfigStep → Bytes → Bytes → List ConfigStep
unfolding script_step
config_steps_add_script steps script step_name = steps ++ script_step script step_name ∷ []

-- The loop over a table, behind the steps so far.
unfoldable pub add_entries : List StepEntry → List ConfigStep → Option (List ConfigStep)
unfolding config_steps_add_script
add_entries [] steps = some steps
add_entries ((none, script) ∷ entries) steps = none
add_entries ((some name, script) ∷ entries) steps =
    add_entries entries (config_steps_add_script steps script name)

unfoldable pub config_default_get_steps : Config → Option (List ConfigStep)
unfolding add_entries
config_default_get_steps cf = add_entries cf.steps []

-- The first loop of `config_robsd_regress_get_steps`: the steps up to the entry without a name, and
-- the entries behind it.
unfoldable pub before_tests : List StepEntry → List ConfigStep → List ConfigStep × List StepEntry
unfolding config_steps_add_script
before_tests [] steps = (steps, [])
before_tests ((none, script) ∷ entries) steps = (steps, entries)
before_tests ((some name, script) ∷ entries) steps =
    before_tests entries (config_steps_add_script steps script name)

-- `config_value` with the field `integer`.
unfoldable pub integer_value : Option VariableValue → ℤ → Option ℤ
integer_value none fallback = some fallback
integer_value (some (integer v)) fallback = some v
integer_value (some _) fallback = none

unfoldable pub is_nonzero : Option ℤ → Option Bool
is_nonzero none = none
is_nonzero (some v) = some (not (eqb_ℤ v (pos 0)))

unfoldable pub is_parallel : System → Config → Bytes → Option Bool × Config
unfolding integer_value regressname is_nonzero
is_parallel sys cf step_name =
    let p = config_find sys cf (codes "parallel") in
    let q = config_find sys p.1 (regressname step_name (codes "parallel")) in
    elim (integer_value p.0 (pos 1)) [
      | none ↦ (none, p.1)
      | some v ↦
          if eqb_ℤ v (pos 0)
          then (some false, p.1)
          else (is_nonzero (integer_value q.0 (pos 1)), q.1)
    ]

abbrev pub regress_script : Bytes
regress_script = codes "${exec-dir}/robsd-regress-exec.sh"

abbrev pub parallel_step : Bytes → ConfigStep
parallel_step test = record (script_step regress_script test) { parallel = true }

-- The loop over the tests: the steps with the parallel ones, and the tests that are not parallel.
unfoldable pub tests_loop :
    System
    → List Bytes
    → List ConfigStep
    → List Bytes
    → Config
    → Option (List ConfigStep × List Bytes) × Config
unfolding is_parallel
tests_loop sys [] steps no_parallel cf = (some (steps, no_parallel), cf)
tests_loop sys (test ∷ tests) steps no_parallel cf =
    let p = is_parallel sys cf test in
    elim p.0 [
      | none ↦ (none, p.1)
      | some true ↦ tests_loop sys tests (steps ++ parallel_step test ∷ []) no_parallel p.1
      | some false ↦ tests_loop sys tests steps (no_parallel ++ test ∷ []) p.1
    ]

unfoldable pub add_tests : List Bytes → List ConfigStep → List ConfigStep
unfolding config_steps_add_script
add_tests [] steps = steps
add_tests (test ∷ tests) steps = add_tests tests (config_steps_add_script steps regress_script test)

unfoldable pub config_robsd_regress_get_steps : System → Config → Option (List ConfigStep) × Config
unfolding before_tests tests_loop add_tests add_entries
config_robsd_regress_get_steps sys cf =
    let r = config_find sys cf (codes "regress") in
    let b = before_tests cf.steps [] in
    elim r.0 [
      | some (list regress) ↦
          let t = tests_loop sys regress b.0 [] r.1 in
          elim t.0 [
            | none ↦ (none, t.1)
            | some (steps, no_parallel) ↦ (add_entries b.1 (add_tests no_parallel steps), t.1)
          ]
      | _ ↦ (none, r.1)
    ]

-- The callback `get_steps`.
unfoldable pub get_steps : System → Config → Option (List ConfigStep) × Config
unfolding config_default_get_steps config_robsd_regress_get_steps
get_steps sys cf = elim cf.mode [
  | plain_robsd ↦ (config_default_get_steps cf, cf)
  | robsd_cross ↦ (config_default_get_steps cf, cf)
  | robsd_ports ↦ (config_default_get_steps cf, cf)
  | robsd_regress ↦ config_robsd_regress_get_steps sys cf
  | canvas ↦ (some cf.canvas_steps, cf)
]

-- A step whose command is ready for execvp(3): `none` is the NULL behind the arguments.
pub record ArgvStep : Type 0 where
  pub name : Bytes
  pub argv : List (Option Bytes)
  pub parallel : Bool

-- The inner loop of `config_get_steps`: arguments that are empty are left out.
unfoldable pub args_loop :
    System → List Bytes → List (Option Bytes) → Config → Result (List (Option Bytes)) × Config
args_loop sys [] argv cf = (done (argv ++ none ∷ []), cf)
args_loop sys (arg ∷ args) argv cf =
    let r = config_interpolate_str sys cf arg in
    elim r.0 [
      | failed ↦ (failed, r.1)
      | out_of_fuel ↦ (out_of_fuel, r.1)
      | done [] ↦ args_loop sys args argv r.1
      | done (c ∷ str) ↦ args_loop sys args (argv ++ some (c ∷ str) ∷ []) r.1
    ]

step_args : System → VariableValue → Config → Result (List (Option Bytes)) × Config
unfolding args_loop
step_args sys (list args) cf = args_loop sys args [] cf
step_args sys _ cf = (failed, cf)

unfoldable pub commands_loop : System → List ConfigStep → Config → Result (List ArgvStep) × Config
unfolding step_args
commands_loop sys [] cf = (done [], cf)
commands_loop sys (st ∷ sts) cf =
    let a = step_args sys st.command cf in
    let r = commands_loop sys sts a.1 in
    elim a.0 [
      | failed ↦ (failed, a.1)
      | out_of_fuel ↦ (out_of_fuel, a.1)
      | done argv ↦ elim r.0 [
        | failed ↦ (failed, r.1)
        | out_of_fuel ↦ (out_of_fuel, r.1)
        | done steps ↦
            (done (record { name = st.name; argv = argv; parallel = st.parallel } ∷ steps), r.1)
      ]
    ]

-- The canvas keeps the new commands in its configuration, which the programs do not read again.
unfoldable pub config_get_steps : System → Config → Bool → Result (List ArgvStep) × Config
unfolding get_steps commands_loop
config_get_steps sys cf trace =
    let s = get_steps sys (record cf { trace = trace }) in
    elim s.0 [
      | none ↦ (failed, record s.1 { trace = false })
      | some steps ↦ let r = commands_loop sys steps s.1 in (r.0, record r.1 { trace = false })
    ]
