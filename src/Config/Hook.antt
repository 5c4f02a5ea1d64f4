-- ===== src/Config/Hook.antt =====
-- robsd-hook.c: the command of the variable `hook`, with the variables of a configuration.
use robsd.Base.{
  ℕ, suc, Bool, true, false, List, [], ◌∷◌, ◌++◌, Option, none, some, ltb, Bytes, codes, length,
  if◌then◌else◌, Result, done, failed, out_of_fuel,
}
use robsd.Config.Value.{VariableValue, list}
use robsd.Config.Lex.{Overflow}
use robsd.Config.State.{System, Config, config_find, config_interpolate_str}
use robsd.Config.File.{config_alloc, config_parse}
use robsd.Config.Program.{append_vars}

pub data HookOption : Type 0 where
  opt_config : Bytes → HookOption
  opt_verbose : HookOption
  opt_mode : Bytes → HookOption
  opt_var : Bytes → HookOption
  unknown : HookOption

pub record HookOptions : Type 0 where
  pub config_path : Option Bytes
  pub verbose : ℕ
  pub config_mode : Option Bytes
  pub vars : List Bytes

-- How the program ends: `usage` stands for the usage message, `no_hook` for success without a command,
-- `exec` for what it prints and the arguments of execvp(3), which returns on an error only.
pub data HookOutcome : Type 0 where
  usage : HookOutcome
  error : HookOutcome
  no_hook : HookOutcome
  exec : Bytes → List Bytes → HookOutcome

unfoldable pub hook_options : List HookOption → HookOptions → Option HookOptions
hook_options [] v = some v
hook_options (opt_config arg ∷ opts) v = hook_options opts (record v { config_path = some arg })
hook_options (opt_verbose ∷ opts) v = hook_options opts (record v { verbose = suc v.verbose })
hook_options (opt_mode arg ∷ opts) v = hook_options opts (record v { config_mode = some arg })
hook_options (opt_var arg ∷ opts) v = hook_options opts (record v { vars = v.vars ++ arg ∷ [] })
hook_options (unknown ∷ opts) v = none

-- The loop of `hook_to_argv` over the strings of the hook.
unfoldable pub hook_loop : System → List Bytes → List Bytes → Config → Result (List Bytes)
unfolding config_interpolate_str
hook_loop sys [] args cf = done args
hook_loop sys (str ∷ hook) args cf =
    let r = config_interpolate_str sys cf str in
    elim r.0 [
      | done arg ↦ hook_loop sys hook (args ++ arg ∷ []) r.1
      | failed ↦ failed
      | out_of_fuel ↦ out_of_fuel
    ]

-- `done none` for the result 0, `failed` for -1. The grammars make `hook` a list; a value of another
-- type has no member `list` to read.
hook_argv : System → Option VariableValue → Config → Result (Option (List Bytes))
unfolding hook_loop
hook_argv sys none cf = done none
hook_argv sys (some (list [])) cf = done none
hook_argv sys (some (list (str ∷ hook))) cf = elim (hook_loop sys (str ∷ hook) [] cf) [
  | done args ↦ done (some args)
  | failed ↦ failed
  | out_of_fuel ↦ out_of_fuel
]
hook_argv sys (some _) cf = failed

unfoldable pub hook_to_argv : System → Config → Result (Option (List Bytes))
unfolding hook_argv
hook_to_argv sys cf = let found = config_find sys cf (codes "hook") in hook_argv sys found.0 found.1

quoted : List Bytes → Bytes
quoted [] = []
quoted (arg ∷ args) = codes " \"" ++ arg ++ codes "\"" ++ quoted args

-- The message that -V asks for.
unfoldable pub hook_message : ℕ → List Bytes → Bytes
unfolding quoted
hook_message verbose args =
    if ltb 0 verbose then codes "robsd-hook: exec" ++ quoted args ++ codes "\n" else []

module _ (o : Overflow) (sys : System) where
  hook_exec : ℕ → Result (Option (List Bytes)) → Result HookOutcome
  hook_exec verbose (done none) = done no_hook
  hook_exec verbose (done (some args)) = done (exec (hook_message verbose args) args)
  hook_exec verbose failed = done error
  hook_exec verbose out_of_fuel = out_of_fuel

  hook_with_vars : ℕ → Option Config → Result HookOutcome
  unfolding hook_exec hook_to_argv
  hook_with_vars verbose none = done error
  hook_with_vars verbose (some cf) = hook_exec verbose (hook_to_argv sys cf)

  hook_parsed : HookOptions → Result Bool × Config → Result HookOutcome
  unfolding hook_with_vars
  hook_parsed v (done false, cf) = hook_with_vars v.verbose (append_vars v.vars cf)
  hook_parsed v (done true, cf) = done error
  hook_parsed v (failed, cf) = failed
  hook_parsed v (out_of_fuel, cf) = out_of_fuel

  hook_config : HookOptions → Option Config → Result HookOutcome
  unfolding hook_parsed
  hook_config v none = done error
  hook_config v (some cf) = hook_parsed v (config_parse o sys cf)

  hook_mode : List Bytes → HookOptions → Option Bytes → Result HookOutcome
  unfolding hook_config
  hook_mode operands v none = done usage
  hook_mode operands v (some mode) =
      if ltb 0 (length operands)
      then done usage
      else hook_config v (config_alloc sys mode v.config_path)

  unfoldable pub robsd_hook_main : List HookOption → List Bytes → Result HookOutcome
  unfolding hook_mode hook_options
  robsd_hook_main opts operands =
      elim (hook_options opts
        (record { config_path = none; verbose = 0; config_mode = none; vars = [] })) [
          | none ↦ done usage
          | some v ↦ hook_mode operands v v.config_mode
        ]
