-- ===== src/Config/Steps/Argv.antt =====
-- The commands of the steps, as `config_get_steps` leaves them for execvp(3).
use robsd.Base.{
  Bool, false, List, [], ◌∷◌, ◌++◌, Option, none, some, Bytes, map, Result, done, failed,
  out_of_fuel, All, ◌≡◌, ◌≢◌, ◌⊎◌, refl, ap, Option-cases, Result-cases, inl, inr,
}
use robsd.Interpolate.{interpolate_str, interpolate_buffer, max_depth}
use robsd.Interpolate.Fuel.{interpolate-ne-out_of_fuel}
use robsd.Config.Value.{VariableValue, invalid, integer, string, directory, list}
use robsd.Config.State.{
  System, Config, ConfigStep, config_interpolate_str, config_interpolate_lookup,
}
use robsd.Config.State.Keeps.{IsShallow, IsDependent}
use robsd.Config.Steps.Searches.{config_get_steps-Keeps}
use robsd.Config.Steps.{ArgvStep, get_steps, args_loop, step_args, commands_loop, config_get_steps}

abbrev pub IsNonEmpty : Bytes → Type 0
IsNonEmpty [] = ⊥
IsNonEmpty (c ∷ str) = Unit

-- Arguments, none of them empty, and NULL behind the last.
pub record IsArgv (argv : List (Option Bytes)) : Type 0 where
  pub args : List Bytes
  pub ends_in_null : argv ≡ map some args ++ none ∷ []
  pub non_empty : All IsNonEmpty args

-- A step for each step, with its name, its mark and such a command.
abbrev pub AreCommands : List ConfigStep → List ArgvStep → Type 0
AreCommands [] [] = Unit
AreCommands [] (a ∷ rest) = ⊥
AreCommands (st ∷ sts) [] = ⊥
AreCommands (st ∷ sts) (a ∷ rest) =
    ((a.name ≡ st.name) × (a.parallel ≡ st.parallel) × IsArgv a.argv) × AreCommands sts rest

interpolate_str-ne-out_of_fuel :
    (sys : System) (cf : Config) (str : Bytes) → (config_interpolate_str sys cf str).0 ≢ out_of_fuel
unfolding config_interpolate_str interpolate_str interpolate_buffer
interpolate_str-ne-out_of_fuel sys cf str =
    interpolate-ne-out_of_fuel (config_interpolate_lookup sys) false max_depth [] str cf

-- What a loop over arguments gives behind `before`.
abbrev ArgsEnd : Result (List (Option Bytes)) → Type 0
ArgsEnd (done argv) = IsArgv argv
ArgsEnd failed = Unit
ArgsEnd out_of_fuel = ⊥

All-snoc :
    (before : List Bytes) (str : Bytes)
    → All IsNonEmpty before
    → IsNonEmpty str
    → All IsNonEmpty (before ++ str ∷ [])
All-snoc [] str h g = (g, tt)
All-snoc (b ∷ before) str (h, hs) g = (h, All-snoc before str hs g)

map-snoc :
    (before : List Bytes) (str : Bytes)
    → map some before ++ some str ∷ [] ≡ map some (before ++ str ∷ [])
map-snoc [] str = refl
map-snoc (b ∷ before) str = ap (λ l. some b ∷ l) (map-snoc before str)

args-ArgsEnd :
    (sys : System) (args before : List Bytes) (cf : Config)
    → All IsNonEmpty before
    → ArgsEnd (args_loop sys args (map some before) cf).0
unfolding args_loop
args-ArgsEnd sys [] before cf h = record { args = before; ends_in_null = refl; non_empty = h }
args-ArgsEnd sys (arg ∷ args) before cf h =
    let r = config_interpolate_str sys cf arg in
    elim (Result-cases r.0) [
      | inr (inl e) ↦ rw (args_loop, e) tt
      | inr (inr e) ↦ absurd (interpolate_str-ne-out_of_fuel sys cf arg e)
      | inl ([], e) ↦ rw (args_loop, e) (args-ArgsEnd sys args before r.1 h)
      | inl (c ∷ str, e) ↦
          rw (args_loop, e)
            (rw (map-snoc before (c ∷ str)) (
              args-ArgsEnd sys args (before ++ (c ∷ str) ∷ []) r.1
                (All-snoc before (c ∷ str) h tt)))
    ]

step_args-ArgsEnd :
    (sys : System) (val : VariableValue) (cf : Config) → ArgsEnd (step_args sys val cf).0
unfolding step_args
step_args-ArgsEnd sys invalid cf = tt
step_args-ArgsEnd sys (integer v) cf = tt
step_args-ArgsEnd sys (string str) cf = tt
step_args-ArgsEnd sys (directory str) cf = tt
step_args-ArgsEnd sys (list args) cf = args-ArgsEnd sys args [] cf tt

abbrev CommandsEnd : List ConfigStep → Result (List ArgvStep) → Type 0
CommandsEnd sts (done steps) = AreCommands sts steps
CommandsEnd sts failed = Unit
CommandsEnd sts out_of_fuel = ⊥

commands-CommandsEnd :
    (sys : System) (sts : List ConfigStep) (cf : Config)
    → CommandsEnd sts (commands_loop sys sts cf).0
unfolding commands_loop
commands-CommandsEnd sys [] cf = tt
commands-CommandsEnd sys (st ∷ sts) cf =
    let a = step_args sys st.command cf in
    let args = step_args-ArgsEnd sys st.command cf in
    let r = commands_loop sys sts a.1 in
    let rest = commands-CommandsEnd sys sts a.1 in
    elim (Result-cases a.0) [
      | inr (inl e) ↦ rw (commands_loop, e) tt
      | inr (inr e) ↦ absurd (rw e at args)
      | inl (argv, e) ↦ elim (Result-cases r.0) [
        | inr (inl f) ↦ rw (commands_loop, e) (rw f tt)
        | inr (inr f) ↦ absurd (rw f at rest)
        | inl (steps, f) ↦ rw (commands_loop, e) (rw f ((refl, refl, rw e at args), rw f at rest))
      ]
    ]

get_steps-AreCommands :
    (sys : System) (cf : Config) (trace : Bool)
    → ((config_get_steps sys cf trace).1.trace ≡ false)
      × (((config_get_steps sys cf trace).0 ≡ failed)
          ⊎ ((sts : List ConfigStep) × (steps : List ArgvStep) × ((get_steps sys
                  (record cf { trace = trace })).0
                ≡ some sts)
              × ((config_get_steps sys cf trace).0 ≡ done steps)
              × AreCommands sts steps))
unfolding config_get_steps
get_steps-AreCommands sys cf trace =
    let s = get_steps sys (record cf { trace = trace }) in
    elim (Option-cases s.0) [
      | inl e ↦ rw (config_get_steps, e) (refl, inl refl)
      | inr (sts, e) ↦
          let r = commands_loop sys sts s.1 in
          let commands = commands-CommandsEnd sys sts s.1 in
          elim (Result-cases r.0) [
            | inr (inl f) ↦ rw (config_get_steps, e) (rw f (refl, inl refl))
            | inr (inr f) ↦ absurd (rw f at commands)
            | inl (steps, f) ↦
                rw (config_get_steps, e)
                  (rw f (refl, inr (sts, steps, refl, refl, rw f at commands)))
          ]
    ]

-- For a configuration in which no search has called itself without end yet, whose grammar, like those of
-- all modes, requires `robsddir` and has constant defaults for `parallel` and `regress-timeout`, if any:
-- `config_get_steps` returns, and no search calls itself without end on the way, unless `robsddir` has
-- a value other than a text without `$`. Tracing is off again. The steps that are returned, where
-- there is no error, are those of the mode, with their names and marks, and the command of each is a
-- list of arguments, none of them empty, with NULL behind the last.
pub config_get_steps-AreCommands :
    (sys : System) (cf : Config) (trace : Bool)
    → IsShallow cf.grammar
    → cf.stuck ≡ false
    → (((config_get_steps sys cf trace).1.stuck ≡ false)
        ⊎ IsDependent (config_get_steps sys cf trace).1)
      × ((config_get_steps sys cf trace).1.trace ≡ false)
      × (((config_get_steps sys cf trace).0 ≡ failed)
          ⊎ ((sts : List ConfigStep) × (steps : List ArgvStep) × ((get_steps sys
                  (record cf { trace = trace })).0
                ≡ some sts)
              × ((config_get_steps sys cf trace).0 ≡ done steps)
              × AreCommands sts steps))
config_get_steps-AreCommands sys cf trace g h =
    let (off, steps) = get_steps-AreCommands sys cf trace in
    ((config_get_steps-Keeps sys cf trace).searches g h, off, steps)
