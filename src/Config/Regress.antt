-- ===== src/Config/Regress.antt =====
-- The parsers of robsd-regress, conf-robsd-regress.c: the keyword `regress`, whose options define
-- variables named after the test, and the keyword `regress-env`.
pub mod InPlace
pub mod Ends
pub mod Env
use robsd.Base.{
  ℕ, zero, suc, Bool, true, false, List, [], ◌∷◌, ◌++◌, Option, none, some, Bytes, codes, length,
  pos, Result, done, failed, out_of_fuel,
}
use robsd.Lexer.{Lexer, lexer_expect}
use robsd.Config.Value.{VariableValue, integer, string, list, variable_value_concat}
use robsd.Config.Token.{
  token_string, token_env, token_no_parallel, token_obj, token_packages, token_quiet, token_root,
  token_targets, token_timeout,
}
use robsd.Config.Lex.{Overflow}
use robsd.Config.State.{
  System, Config, Variable, config_append, config_interpolate_early, concat_to,
}
use robsd.Config.Parse.{
  Parsed, append_value, config_error, config_nop, FromTokens, Outcome, first_of, config_parse_list,
  config_parse_timeout,
}

unfoldable pub regressname : Bytes → Bytes → Bytes
regressname path suffix = codes "regress-" ++ path ++ b'-' ∷ suffix

-- The value at an index, which stands for a pointer to a variable.
unfoldable pub set_at : ℕ → VariableValue → List Variable → List Variable
set_at n val [] = []
set_at zero val (va ∷ vas) = record va { va_val = val } ∷ vas
set_at (suc n) val (va ∷ vas) = va ∷ set_at n val vas

-- A list that was parsed, put behind the list of a variable.
unfoldable pub concatenated : Bytes → Config → FromTokens → Outcome
concatenated name cf (done (append_value val), lx) = elim (concat_to cf name val) [
  | none ↦ (failed, cf, lx)
  | some cf' ↦ (done config_nop, cf', lx)
]
concatenated name cf (done _, lx) = (done config_error, cf, lx)
concatenated name cf (failed, lx) = (failed, cf, lx)
concatenated name cf (out_of_fuel, lx) = (out_of_fuel, cf, lx)

abbrev pub default_env : VariableValue
default_env = list (codes "${regress-env}" ∷ [])

-- The interpolated text stored at the variable that was the last, of index `va`.
unfoldable pub interpolated_env : ℕ → Lexer → Result Bytes × Config → Outcome
unfolding set_at
interpolated_env va lx (done str, cf) =
    (done config_nop, record cf { variables = set_at va (string str) cf.variables }, lx)
interpolated_env va lx (failed, cf) = (done config_error, cf, lx)
interpolated_env va lx (out_of_fuel, cf) = (out_of_fuel, cf, lx)

unfoldable pub config_parse_regress_option_env : System → Bytes → Config → FromTokens → Outcome
unfolding interpolated_env regressname config_append
config_parse_regress_option_env sys path cf (done (append_value newval), lx) =
    let name = regressname path (codes "env") in
    elim (variable_value_concat default_env newval) [
      | none ↦ (failed, cf, lx)
      | some defval ↦ interpolated_env (length cf.variables) lx (
          config_interpolate_early sys (config_append cf name defval)
            (codes "${" ++ name ++ codes "}"))
    ]
config_parse_regress_option_env sys path cf (done _, lx) = (done config_error, cf, lx)
config_parse_regress_option_env sys path cf (failed, lx) = (failed, cf, lx)
config_parse_regress_option_env sys path cf (out_of_fuel, lx) = (out_of_fuel, cf, lx)

unfoldable pub timeout_option : Bytes → Config → FromTokens → Outcome
unfolding regressname config_append
timeout_option path cf (done (append_value val), lx) =
    (done config_nop, config_append cf (regressname path (codes "timeout")) val, lx)
timeout_option path cf (done _, lx) = (done config_error, cf, lx)
timeout_option path cf (failed, lx) = (failed, cf, lx)
timeout_option path cf (out_of_fuel, lx) = (out_of_fuel, cf, lx)

unfoldable pub append_flag : Bytes → Bytes → ℕ → Config → Lexer → Outcome
unfolding regressname config_append
append_flag path suffix n cf lx =
    (done config_nop, config_append cf (regressname path suffix) (integer (pos n)), lx)

-- The types of the tokens for the options.
pub data RegressOption : Type 0 where
  option_env option_no_parallel option_obj option_packages option_quiet option_root : RegressOption
  option_targets option_timeout : RegressOption

abbrev options : List (ℕ × RegressOption)
options =
    (token_env, option_env)
    ∷ (token_no_parallel, option_no_parallel)
    ∷ (token_obj, option_obj)
    ∷ (token_packages, option_packages)
    ∷ (token_quiet, option_quiet)
    ∷ (token_root, option_root)
    ∷ (token_targets, option_targets)
    ∷ (token_timeout, option_timeout)
    ∷ []

-- The next round, but behind an error.
unfoldable pub go_on : (Config → Lexer → Outcome) → Outcome → Outcome
go_on next (done config_nop, cf, lx) = next cf lx
go_on next r = r

module _ (o : Overflow) (sys : System) (path : Bytes) where
  -- The body of the loop for an option; CONFIG_NOP says that the loop goes on.
  unfoldable regress_option : RegressOption → Config → Lexer → Outcome
  unfolding append_flag concatenated config_parse_regress_option_env timeout_option
  regress_option option_env cf lx =
      config_parse_regress_option_env sys path cf (config_parse_list lx)
  regress_option option_no_parallel cf lx = append_flag path (codes "parallel") 0 cf lx
  regress_option option_obj cf lx = concatenated (codes "regress-obj") cf (config_parse_list lx)
  regress_option option_packages cf lx =
      concatenated (codes "regress-packages") cf (config_parse_list lx)
  regress_option option_quiet cf lx = append_flag path (codes "quiet") 1 cf lx
  regress_option option_root cf lx = append_flag path (codes "root") 1 cf lx
  regress_option option_targets cf lx =
      concatenated (regressname path (codes "targets")) cf (config_parse_list lx)
  regress_option option_timeout cf lx = timeout_option path cf (config_parse_timeout o lx)

  -- The loop over the options, and the test put behind the others.
  unfoldable pub regress_loop : ℕ → Config → Lexer → Outcome
  unfolding regress_option concatenated go_on
  regress_loop zero cf lx = (out_of_fuel, cf, lx)
  regress_loop (suc fuel) cf lx =
      let t = first_of options lx in
      elim t.0 [
        | none ↦ concatenated (codes "regress") cf (done (append_value (list (path ∷ []))), t.1)
        | some option ↦ go_on (regress_loop fuel) (regress_option option cf t.1)
      ]

-- Each option takes a token.
unfoldable pub config_parse_regress : Overflow → System → Config → Lexer → Outcome
unfolding regress_loop
config_parse_regress o sys cf lx =
    let r = lexer_expect lx token_string in
    elim r.0 [
      | none ↦ (done config_error, cf, r.1)
      | some tk ↦ regress_loop o sys tk.tk_str (suc (length r.1.lx_ahead)) cf r.1
    ]

unfoldable pub config_parse_regress_env : Config → Lexer → Outcome
unfolding concatenated
config_parse_regress_env cf lx = concatenated (codes "regress-env") cf (config_parse_list lx)
