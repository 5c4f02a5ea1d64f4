-- ===== src/Config/File.antt =====
-- A configuration file: `config_alloc` and `config_parse` of conf.c, with the initialization for each
-- mode of conf-robsd.c, conf-robsd-cross.c, conf-robsd-ports.c, conf-robsd-regress.c and
-- conf-canvas.c.
pub mod Ends
pub mod Alloc
pub mod Mandatory
use robsd.Base.{
  ℕ, zero, suc, Bool, true, false, not, ◌&&◌, ◌||◌, List, [], ◌∷◌, ◌++◌, Option, none, some, ltb,
  if◌then◌else◌, Bytes, codes, length, Result, done, failed, out_of_fuel,
}
use robsd.Mode.{
  RobsdMode, plain_robsd, robsd_cross, robsd_ports, robsd_regress, canvas, robsd_mode_parse,
}
use robsd.Lexer.{Token, Lexer, lexer_eof, lexer_alloc, lexer_expect, lexer_peek, lexer_error}
use robsd.Config.Value.{list}
use robsd.Config.Token.{token_keyword}
use robsd.Config.Lex.{Overflow, config_lexer_read}
use robsd.Config.Grammar.{
  Grammar, Parser, parse_boolean, parse_string, parse_integer, parse_glob, parse_list, parse_user,
  parse_timeout, parse_directory, parse_regress, parse_regress_env, parse_canvas_directory,
  parse_canvas_step, config_find_grammar_for_keyword,
}
use robsd.Config.Grammar.Tables.{
  StepEntry, common_grammar, robsd_grammar, robsd_cross_grammar, robsd_ports_grammar,
  robsd_regress_grammar, canvas_grammar, robsd_steps, robsd_cross_steps, robsd_ports_steps,
  robsd_regress_steps,
}
use robsd.Config.State.{System, Config, ConfigStep, config_append, config_present, rdomain_min}
use robsd.Config.Parse.{
  Parsed, append_value, config_error, config_nop, config_fatal, Outcome, unchanged,
  config_parse_boolean, config_parse_string, config_parse_integer, config_parse_glob,
  config_parse_list, config_parse_user, config_parse_timeout, config_parse_directory,
}
use robsd.Config.Regress.{config_parse_regress, config_parse_regress_env}
use robsd.Config.Canvas.{config_parse_canvas_directory, config_parse_canvas_step}

-- The value is appended even where the variable is there already, which is an error.
unfoldable pub append_parsed : Bytes → Outcome → Outcome
unfolding config_append
append_parsed name (done (append_value val), cf, lx) =
    (done (append_value val), config_append cf name val, lx)
append_parsed name r = r

already_defined : Outcome → Outcome
already_defined (done p, cf, lx) = (done config_error, cf, lexer_error lx)
already_defined (failed, cf, lx) = (failed, cf, lx)
already_defined (out_of_fuel, cf, lx) = (out_of_fuel, cf, lx)

-- The next round with the variable `error`, but behind CONFIG_FATAL.
go_on :
    (Bool → Config → Lexer → Result Bool × Config × Lexer)
    → Bool
    → Outcome
    → Result Bool × Config × Lexer
go_on next error (done config_error, cf, lx) = next true cf lx
go_on next error (done config_fatal, cf, lx) = (done true, cf, lx)
go_on next error (done _, cf, lx) = next error cf lx
go_on next error (failed, cf, lx) = (failed, cf, lx)
go_on next error (out_of_fuel, cf, lx) = (out_of_fuel, cf, lx)

module _ (o : Overflow) (sys : System) where
  -- The call through `gr_fn`.
  unfoldable pub parse_value : Parser → Config → Lexer → Outcome
  unfolding unchanged
  parse_value parse_boolean cf lx = unchanged cf (config_parse_boolean lx)
  parse_value parse_string cf lx = unchanged cf (config_parse_string lx)
  parse_value parse_integer cf lx = unchanged cf (config_parse_integer lx)
  parse_value parse_glob cf lx = unchanged cf (config_parse_glob sys lx)
  parse_value parse_list cf lx = unchanged cf (config_parse_list lx)
  parse_value parse_user cf lx = unchanged cf (config_parse_user sys lx)
  parse_value parse_timeout cf lx = unchanged cf (config_parse_timeout o lx)
  parse_value parse_directory cf lx = config_parse_directory sys cf lx
  parse_value parse_regress cf lx = config_parse_regress o sys cf lx
  parse_value parse_regress_env cf lx = config_parse_regress_env cf lx
  parse_value parse_canvas_directory cf lx = config_parse_canvas_directory sys cf lx
  parse_value parse_canvas_step cf lx = config_parse_canvas_step sys cf lx

  -- The grammars that are found have a parser; `failed` is a call of NULL.
  unfoldable pub parse_keyword_by : Grammar → Config → Lexer → Token → Outcome
  unfolding parse_value append_parsed already_defined
  parse_keyword_by gr cf lx tk = elim gr.gr_fn [
    | none ↦ (failed, cf, lx)
    | some fn ↦
        let r = append_parsed tk.tk_str (parse_value fn cf lx) in
        if not gr.gr_flags.rep && config_present cf tk.tk_str then already_defined r else r
  ]

  unfoldable pub config_parse_keyword : Config → Lexer → Token → Outcome
  unfolding parse_keyword_by
  config_parse_keyword cf lx tk = elim (config_find_grammar_for_keyword cf.grammar tk.tk_str) [
    | none ↦ (done config_fatal, cf, lexer_error lx)
    | some gr ↦ parse_keyword_by gr cf lx tk
  ]

  -- The loop of `config_parse_inner`.
  unfoldable pub inner_loop : ℕ → Bool → Config → Lexer → Result Bool × Config × Lexer
  unfolding config_parse_keyword go_on
  inner_loop zero error cf lx = (out_of_fuel, cf, lx)
  inner_loop (suc fuel) error cf lx =
      let p = lexer_peek lx lexer_eof in
      let t = lexer_expect p.1 token_keyword in
      elim p.0 [
        | true ↦ (done error, cf, p.1)
        | false ↦ elim t.0 [
          | none ↦ (done true, cf, t.1)
          | some tk ↦ go_on (inner_loop fuel) error (config_parse_keyword cf t.1 tk)
        ]
      ]

-- Whether a mandatory variable is missing. The messages change the counter of the lexer, which is
-- not read behind it.
unfoldable pub missing : List Grammar → Config → Bool
missing [] cf = false
missing (gr ∷ grs) cf = gr.gr_flags.req && not (config_present cf gr.gr_kw) || missing grs cf

unfoldable pub config_validate : Config → Bool
unfolding missing
config_validate cf = missing cf.grammar cf

-- `true` for the result 1.
unfoldable pub inner_result : Result Bool × Config × Lexer → Result Bool × Config
unfolding config_validate
inner_result (done error, cf, lx) = (done (ltb 0 lx.lx_err || (config_validate cf || error)), cf)
inner_result (failed, cf, lx) = (failed, cf)
inner_result (out_of_fuel, cf, lx) = (out_of_fuel, cf)

-- Each round takes a token.
unfoldable pub config_parse_inner : Overflow → System → Config → Lexer → Result Bool × Config
unfolding inner_loop inner_result
config_parse_inner o sys cf lx =
    inner_result (inner_loop o sys (suc (length lx.lx_ahead)) false cf lx)

abbrev pub end_step : ConfigStep
end_step = record {
  name = codes "end";
  command =
      list (codes "sh" ∷ codes "-eu" ∷ codes "${trace}" ∷ codes "/dev/null" ∷ codes "end" ∷ []);
  parallel = false;
}

after_parse_in : RobsdMode → Config → Config
after_parse_in plain_robsd cf = cf
after_parse_in robsd_cross cf = cf
after_parse_in robsd_ports cf = cf
after_parse_in robsd_regress cf = cf
after_parse_in canvas cf = record cf { canvas_steps = cf.canvas_steps ++ end_step ∷ [] }

-- The callback of the mode.
unfoldable pub after_parse : Config → Config
unfolding after_parse_in
after_parse cf = after_parse_in cf.mode cf

unfoldable pub parsed : Result Bool × Config → Result Bool × Config
unfolding after_parse
parsed (done false, cf) = (done false, after_parse cf)
parsed r = r

unfoldable pub parse_from : Overflow → System → Config → Result Lexer → Result Bool × Config
unfolding config_parse_inner parsed
parse_from o sys cf (done lx) = parsed (config_parse_inner o sys cf lx)
parse_from o sys cf failed = (done true, cf)
parse_from o sys cf out_of_fuel = (out_of_fuel, cf)

-- `done true` for the result 1.
unfoldable pub config_parse : Overflow → System → Config → Result Bool × Config
unfolding parse_from
config_parse o sys cf =
    parse_from o sys cf (lexer_alloc (config_lexer_read o cf.mode) (sys.read_file cf.path))

-- The grammar of a mode, before that of all modes.
unfoldable pub config_copy_grammar : System → List Grammar → List Grammar
config_copy_grammar sys grammar = grammar ++ common_grammar sys.machine sys.machine_arch

config_with : RobsdMode → Bytes → List Grammar → List StepEntry → ℕ → Config
config_with m path grammar steps rdomain = record {
  path = path;
  mode = m;
  grammar = grammar;
  variables = [];
  steps = steps;
  canvas_steps = [];
  early = false;
  rdomain = rdomain;
  trace = false;
  stuck = false;
}

or_default : Option Bytes → Bytes → Bytes
or_default none path = path
or_default (some path) default = path

config_robsd_init : System → Option Bytes → Config
unfolding config_copy_grammar config_with or_default
config_robsd_init sys path =
    config_with plain_robsd (or_default path (codes "/etc/robsd.conf"))
      (config_copy_grammar sys robsd_grammar) robsd_steps 0

config_robsd_cross_init : System → Option Bytes → Config
unfolding config_copy_grammar config_with or_default
config_robsd_cross_init sys path =
    config_with robsd_cross (or_default path (codes "/etc/robsd-cross.conf"))
      (config_copy_grammar sys robsd_cross_grammar) robsd_cross_steps 0

config_robsd_ports_init : System → Option Bytes → Config
unfolding config_copy_grammar config_with or_default
config_robsd_ports_init sys path =
    config_with robsd_ports (or_default path (codes "/etc/robsd-ports.conf"))
      (config_copy_grammar sys robsd_ports_grammar) robsd_ports_steps 0

config_robsd_regress_init : System → Option Bytes → Config
unfolding config_copy_grammar config_with or_default
config_robsd_regress_init sys path =
    config_with robsd_regress (or_default path (codes "/etc/robsd-regress.conf"))
      (config_copy_grammar sys robsd_regress_grammar) robsd_regress_steps rdomain_min

-- `none` for the result 1: a canvas has no default path.
config_canvas_init : System → Option Bytes → Option Config
unfolding config_copy_grammar config_with
config_canvas_init sys none = none
config_canvas_init sys (some path) =
    some (config_with canvas path (config_copy_grammar sys canvas_grammar) [] 0)

-- The callback `init` of a mode.
unfoldable pub config_init : System → RobsdMode → Option Bytes → Option Config
unfolding config_robsd_init config_robsd_cross_init config_robsd_ports_init
    config_robsd_regress_init config_canvas_init
config_init sys plain_robsd path = some (config_robsd_init sys path)
config_init sys robsd_cross path = some (config_robsd_cross_init sys path)
config_init sys robsd_ports path = some (config_robsd_ports_init sys path)
config_init sys robsd_regress path = some (config_robsd_regress_init sys path)
config_init sys canvas path = config_canvas_init sys path

unfoldable pub config_alloc : System → Bytes → Option Bytes → Option Config
unfolding config_init
config_alloc sys mode path = elim (robsd_mode_parse mode) [
  | none ↦ none
  | some m ↦ config_init sys m path
]
