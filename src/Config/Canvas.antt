-- ===== src/Config/Canvas.antt =====
-- The parsers of canvas, conf-canvas.c: the keywords `canvas-dir` and `step`.
pub mod Ends
use robsd.Base.{
  ℕ, zero, suc, Bool, true, false, List, [], ◌∷◌, ◌++◌, Option, none, some, Bytes, codes, length,
  Result, done, failed, out_of_fuel,
}
use robsd.Lexer.{Lexer, lexer_expect, lexer_error}
use robsd.Config.Value.{VariableValue, invalid, list, variable_value_append, variable_value_concat}
use robsd.Config.Token.{token_string, token_command, token_parallel}
use robsd.Config.State.{System, Config, ConfigStep, config_append, config_find}
use robsd.Config.Parse.{
  append_value, config_error, config_nop, FromTokens, Outcome, first_of, config_parse_list,
  config_parse_directory,
}

unfoldable pub directory_alias : Outcome → Outcome
unfolding config_append
directory_alias (done (append_value val), cf, lx) = (
  done config_nop,
  config_append (config_append cf (codes "canvas-dir") val) (codes "robsddir") val,
  lx,
)
directory_alias r = r

unfoldable pub config_parse_canvas_directory : System → Config → Lexer → Outcome
unfolding directory_alias
config_parse_canvas_directory sys cf lx = directory_alias (config_parse_directory sys cf lx)

-- `variable_value_append` for each value of a list.
unfoldable pub append_all : VariableValue → List Bytes → Option VariableValue
append_all val [] = some val
append_all val (str ∷ strs) = elim (variable_value_append val str) [
  | none ↦ none
  | some val' ↦ append_all val' strs
]

-- The command behind its environment, for what `config_find` says of `env`.
unfoldable pub command_with_env : Option VariableValue → VariableValue → Option VariableValue
unfolding append_all
command_with_env none command = variable_value_concat (list []) command
command_with_env (some (list env)) command = elim (append_all (list []) (codes "env" ∷ env)) [
  | none ↦ none
  | some val ↦ variable_value_concat val command
]
command_with_env (some _) command = none

is_empty_list : VariableValue → Bool
is_empty_list invalid = true
is_empty_list (list []) = true
is_empty_list _ = false

-- `some` goes on with the command.
abbrev pub Command : Type 0
Command = Result (Option VariableValue) × Config × Lexer

with_env : VariableValue → Option VariableValue × Config → Lexer → Command
with_env command (env, cf) lx = elim (command_with_env env command) [
  | none ↦ (failed, cf, lx)
  | some val ↦ (done (some val), cf, lx)
]

unfoldable pub parse_command : System → Config → FromTokens → Command
unfolding with_env is_empty_list
parse_command sys cf (done (append_value command), lx) = elim (is_empty_list command) [
  | true ↦ (done (some command), cf, lx)
  | false ↦ with_env command (config_find sys cf (codes "env")) lx
]
parse_command sys cf (done _, lx) = (done none, cf, lx)
parse_command sys cf (failed, lx) = (failed, cf, lx)
parse_command sys cf (out_of_fuel, lx) = (out_of_fuel, cf, lx)

-- The sentinel for the mandatory keyword, before the first step.
sentinel_before : List ConfigStep → Config → Config
unfolding config_append
sentinel_before [] cf = config_append cf (codes "step") invalid
sentinel_before (cs ∷ css) cf = cf

unfoldable pub add_sentinel : Config → Config
unfolding sentinel_before
add_sentinel cf = sentinel_before cf.canvas_steps cf

unfoldable pub add_canvas_step : Config → ConfigStep → Config
unfolding add_sentinel
add_canvas_step cf cs =
    let cf' = add_sentinel cf in record cf' { canvas_steps = cf'.canvas_steps ++ cs ∷ [] }

pub data StepOption : Type 0 where
  option_command option_parallel : StepOption

abbrev options : List (ℕ × StepOption)
options = (token_command, option_command) ∷ (token_parallel, option_parallel) ∷ []

-- Behind the loop over the options.
unfoldable pub finish_step : Bytes → VariableValue → Bool → Config → Lexer → Outcome
unfolding add_canvas_step is_empty_list
finish_step name command parallel cf lx = elim (is_empty_list command) [
  | true ↦ (done config_error, cf, lexer_error lx)
  | false ↦ (
    done config_nop,
    add_canvas_step cf (record { name = name; command = command; parallel = parallel }),
    lx,
  )
]

-- The next round with the command, but behind an error.
unfoldable pub go_on : (VariableValue → Config → Lexer → Outcome) → Command → Outcome
go_on next (done (some command), cf, lx) = next command cf lx
go_on next (done none, cf, lx) = (done config_error, cf, lx)
go_on next (failed, cf, lx) = (failed, cf, lx)
go_on next (out_of_fuel, cf, lx) = (out_of_fuel, cf, lx)

module _ (sys : System) (name : Bytes) where
  unfoldable pub step_loop : ℕ → VariableValue → Bool → Config → Lexer → Outcome
  unfolding parse_command finish_step go_on
  step_loop zero command parallel cf lx = (out_of_fuel, cf, lx)
  step_loop (suc fuel) command parallel cf lx =
      let t = first_of options lx in
      elim t.0 [
        | none ↦ finish_step name command parallel cf t.1
        | some option_parallel ↦ step_loop fuel command true cf t.1
        | some option_command ↦
            go_on (λ command' cf' lx'. step_loop fuel command' parallel cf' lx')
              (parse_command sys cf (config_parse_list t.1))
      ]

-- Each option takes a token.
unfoldable pub config_parse_canvas_step : System → Config → Lexer → Outcome
unfolding step_loop
config_parse_canvas_step sys cf lx =
    let r = lexer_expect lx token_string in
    elim r.0 [
      | none ↦ (done config_error, cf, r.1)
      | some tk ↦ step_loop sys tk.tk_str (suc (length r.1.lx_ahead)) invalid false cf r.1
    ]
