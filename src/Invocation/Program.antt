-- ===== src/Invocation/Program.antt =====
-- robsd-ls.c: the directories of the invocations of a mode, the newest first.
use robsd.Base.{
  ℕ, suc, Bool, true, false, List, [], ◌∷◌, Option, none, some, ltb, Bytes, codes, length,
  if◌then◌else◌, ℤ, Result, done, failed, out_of_fuel,
}
use robsd.Config.Value.{VariableValue, string, directory}
use robsd.Config.Lex.{Overflow}
use robsd.Config.State.{System, Config, config_find, config_interpolate_str}
use robsd.Config.File.{config_alloc, config_parse}
use robsd.Invocation.{Directory, InvocationEntry, sort_desc, invocation_alloc, walk_loop}

pub data LsOption : Type 0 where
  opt_skip : LsOption
  opt_config : Bytes → LsOption
  opt_mode : Bytes → LsOption
  unknown : LsOption

pub record LsOptions : Type 0 where
  pub skip_builddir : Bool
  pub config_path : Option Bytes
  pub config_mode : Option Bytes

-- What the program prints, and whether it fails; `usage` stands for the usage message.
pub data LsOutcome : Type 0 where
  usage : LsOutcome
  error : LsOutcome
  printed : Bytes → LsOutcome

unfoldable pub ls_options : List LsOption → LsOptions → Option LsOptions
ls_options [] v = some v
ls_options (opt_skip ∷ opts) v = ls_options opts (record v { skip_builddir = true })
ls_options (opt_config arg ∷ opts) v = ls_options opts (record v { config_path = some arg })
ls_options (opt_mode arg ∷ opts) v = ls_options opts (record v { config_mode = some arg })
ls_options (unknown ∷ opts) v = none

-- `config_value` with the field `str`; `none` stands for NULL.
str_value : Option VariableValue → Option Bytes
str_value (some (string str)) = some str
str_value (some (directory str)) = some str
str_value _ = none

module _ (path_max name_max : ℕ)
    (sort : (InvocationEntry → InvocationEntry → ℤ) → List InvocationEntry → List InvocationEntry)
    (readdir : Bytes → Option Directory) (o : Overflow) (sys : System) where
  print_directories : Option Bytes → Option (List InvocationEntry) → Result LsOutcome
  unfolding walk_loop
  print_directories builddir none = done error
  print_directories builddir (some directories) =
      elim (walk_loop (suc (length directories)) builddir directories []) [
        | done out ↦ done (printed out)
        | failed ↦ failed
        | out_of_fuel ↦ out_of_fuel
      ]

  list_keep : Option Bytes → Bytes → Result Bytes → Result LsOutcome
  unfolding print_directories
  list_keep builddir robsddir (done keepdir) =
      print_directories builddir
        (invocation_alloc path_max name_max sort readdir robsddir keepdir sort_desc)
  list_keep builddir robsddir failed = done error
  list_keep builddir robsddir out_of_fuel = out_of_fuel

  list_robsddir : Option Bytes → Result Bytes × Config → Result LsOutcome
  unfolding list_keep
  list_robsddir builddir (done robsddir, cf) =
      list_keep builddir robsddir (config_interpolate_str sys cf (codes "${keep-dir}")).0
  list_robsddir builddir (failed, cf) = done error
  list_robsddir builddir (out_of_fuel, cf) = out_of_fuel

  list_parsed : Bool → Result Bool × Config → Result LsOutcome
  unfolding list_robsddir str_value
  list_parsed skip_builddir (done false, cf) =
      let found = config_find sys cf (codes "builddir") in
      if skip_builddir
      then list_robsddir (str_value found.0)
          (config_interpolate_str sys found.1 (codes "${robsddir}"))
      else list_robsddir none (config_interpolate_str sys cf (codes "${robsddir}"))
  list_parsed skip_builddir (done true, cf) = done error
  list_parsed skip_builddir (failed, cf) = failed
  list_parsed skip_builddir (out_of_fuel, cf) = out_of_fuel

  list_config : Bool → Option Config → Result LsOutcome
  unfolding list_parsed
  list_config skip_builddir none = done error
  list_config skip_builddir (some cf) = list_parsed skip_builddir (config_parse o sys cf)

  list_mode : List Bytes → LsOptions → Option Bytes → Result LsOutcome
  unfolding list_config
  list_mode operands v none = done usage
  list_mode operands v (some mode) =
      if ltb 0 (length operands)
      then done usage
      else list_config v.skip_builddir (config_alloc sys mode v.config_path)

  unfoldable pub robsd_ls_main : List LsOption → List Bytes → Result LsOutcome
  unfolding list_mode ls_options
  robsd_ls_main opts operands =
      elim (ls_options opts
        (record { skip_builddir = false; config_path = none; config_mode = none })) [
          | none ↦ done usage
          | some v ↦ list_mode operands v v.config_mode
        ]
