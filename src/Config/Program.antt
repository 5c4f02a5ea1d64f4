-- ===== src/Config/Program.antt =====
-- robsd-config.c: the text of the standard input with the variables of a configuration.
use robsd.Base.{
  Bool, true, false, List, [], ◌∷◌, ◌++◌, Option, none, some, Bytes, codes, str_eq, if◌then◌else◌,
  Result, done, failed, out_of_fuel,
}
use robsd.Config.Lex.{Overflow}
use robsd.Config.State.{System, Config, config_append_var, config_interpolate_file}
use robsd.Config.File.{config_alloc, config_parse}

pub data ConfigOption : Type 0 where
  opt_config : Bytes → ConfigOption
  opt_mode : Bytes → ConfigOption
  opt_var : Bytes → ConfigOption
  unknown : ConfigOption

pub record ConfigOptions : Type 0 where
  pub config_path : Option Bytes
  pub config_mode : Option Bytes
  pub vars : List Bytes

-- What the program prints; `usage` stands for the usage message.
pub data ConfigOutcome : Type 0 where
  usage : ConfigOutcome
  error : ConfigOutcome
  printed : Bytes → ConfigOutcome

unfoldable pub config_options : List ConfigOption → ConfigOptions → Option ConfigOptions
config_options [] v = some v
config_options (opt_config arg ∷ opts) v = config_options opts (record v { config_path = some arg })
config_options (opt_mode arg ∷ opts) v = config_options opts (record v { config_mode = some arg })
config_options (opt_var arg ∷ opts) v = config_options opts (record v { vars = v.vars ++ arg ∷ [] })
config_options (unknown ∷ opts) v = none

-- The loop over the variables of the command line; `none` for an error.
unfoldable pub append_vars : List Bytes → Config → Option Config
unfolding config_append_var
append_vars [] cf = some cf
append_vars (var ∷ vars) cf =
    let r = config_append_var cf var in elim r.0 [ true ↦ none | false ↦ append_vars vars r.1 ]

-- Whether the text of the standard input is wanted; `none` for the usage message.
unfoldable pub do_interpolate : List Bytes → Option Bool
unfolding str_eq
do_interpolate [] = some false
do_interpolate (arg ∷ []) = if str_eq arg (codes "-") then some true else none
do_interpolate (arg ∷ arg' ∷ args) = none

module _ (o : Overflow) (sys : System) (stdin : Option (List Bytes)) where
  print_text : Result Bytes → Result ConfigOutcome
  print_text (done str) = done (printed str)
  print_text failed = done error
  print_text out_of_fuel = out_of_fuel

  with_vars : Bool → Option Config → Result ConfigOutcome
  unfolding print_text
  with_vars wanted none = done error
  with_vars true (some cf) = print_text (config_interpolate_file sys cf stdin).0
  with_vars false (some cf) = done (printed [])

  config_parsed : Bool → List Bytes → Result Bool × Config → Result ConfigOutcome
  unfolding with_vars
  config_parsed wanted vars (done false, cf) = with_vars wanted (append_vars vars cf)
  config_parsed wanted vars (done true, cf) = done error
  config_parsed wanted vars (failed, cf) = failed
  config_parsed wanted vars (out_of_fuel, cf) = out_of_fuel

  config_allocated : Bool → List Bytes → Option Config → Result ConfigOutcome
  unfolding config_parsed
  config_allocated wanted vars none = done error
  config_allocated wanted vars (some cf) = config_parsed wanted vars (config_parse o sys cf)

  config_mode_given : Option Bool → ConfigOptions → Option Bytes → Result ConfigOutcome
  unfolding config_allocated
  config_mode_given (some wanted) v (some mode) =
      config_allocated wanted v.vars (config_alloc sys mode v.config_path)
  config_mode_given _ v _ = done usage

  unfoldable pub robsd_config_main : List ConfigOption → List Bytes → Result ConfigOutcome
  unfolding config_mode_given config_options do_interpolate
  robsd_config_main opts operands =
      elim (config_options opts (record { config_path = none; config_mode = none; vars = [] })) [
        | none ↦ done usage
        | some v ↦ config_mode_given (do_interpolate operands) v v.config_mode
      ]
