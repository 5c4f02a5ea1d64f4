-- ===== src/Config/State.antt =====
-- The state of a configuration, conf-priv.h, and its variables in conf.c: definition, search with
-- defaults, and substitution.
--
-- What the operating system answers is the argument `sys`, taken to stay the same while a
-- configuration is used. A search can call itself, when the default of `builddir` is computed; the
-- model does so to a depth, `stuck` says that the depth was not enough, and the C code recurses on: what
-- is found then is no result of the C code.
-- A pointer to a variable is its value, with the state; the static variables that the C code returns
-- for defaults are values as well.
pub mod Extends
pub mod Keeps
pub mod Search
pub mod Stuck
pub mod Early
pub mod Refines
use robsd.Base.{
  ℕ, zero, suc, ◌+◌, Bool, true, false, not, ◌&&◌, ◌||◌, List, [], ◌∷◌, ◌++◌, Option, none, some,
  ◌==◌, if◌then◌else◌, Bytes, codes, str_eq, strchr, ℤ, pos, negsuc, eqb_ℤ, Result, done, failed,
  out_of_fuel,
}
use robsd.Mode.{RobsdMode}
use robsd.Interpolate.{interpolate_str, interpolate_file}
use robsd.Strtonum.{print_int}
use robsd.Config.Value.{
  VariableType, invalid_type, integer_type, string_type, directory_type, list_type, VariableValue,
  invalid, integer, string, directory, list, is_variable_value_valid, variable_value_concat,
  variable_value_init,
}
use robsd.Config.Grammar.{
  Grammar, GrammarDefault, null, s8, i32, fun, DefaultFun, default_build_dir, default_exec_dir,
  default_inet4, default_inet6, default_ncpu, default_trace, default_rdomain,
  default_regress_targets, default_parallel, default_regress_timeout,
  config_find_grammar_for_keyword, config_find_grammar_for_interpolation,
}
use robsd.Config.Grammar.Tables.{StepEntry}

-- What stat(2) says of a path, and glob(3) of a pattern.
pub data Stat : Type 0 where
  no_stat not_directory is_directory : Stat

pub data Glob : Type 0 where
  no_match : Glob
  glob_error : Glob
  paths : List Bytes → Glob

pub record System : Type 0 where
  pub machine : Bytes
  pub machine_arch : Bytes
  pub execdir : Option Bytes
  pub nprocessors : ℤ
  pub egress_inet4 : Option Bytes
  pub egress_inet6 : Option Bytes
  pub read_file : Bytes → Option Bytes
  pub stat : Bytes → Stat
  pub has_user : Bytes → Bool
  pub glob : Bytes → Glob

pub record Variable : Type 0 where
  pub va_name : Bytes
  pub va_val : VariableValue

pub record ConfigStep : Type 0 where
  pub name : Bytes
  pub command : VariableValue
  pub parallel : Bool

pub record Config : Type 0 where
  pub path : Bytes
  pub mode : RobsdMode
  pub grammar : List Grammar
  pub variables : List Variable
  pub steps : List StepEntry
  pub canvas_steps : List ConfigStep
  pub early : Bool
  pub rdomain : ℕ
  pub trace : Bool
  pub stuck : Bool

abbrev pub variable : Bytes → VariableValue → Variable
variable name val = record { va_name = name; va_val = val }

-- The result of `config_append` is the last variable.
unfoldable pub config_append : Config → Bytes → VariableValue → Config
config_append cf name val = record cf { variables = cf.variables ++ variable name val ∷ [] }

unfoldable pub find_variable : List Variable → Bytes → Option VariableValue
find_variable [] name = none
find_variable (va ∷ vas) name =
    if str_eq va.va_name name then some va.va_val else find_variable vas name

unfoldable pub present_in : List Variable → Bytes → Bool
present_in [] name = false
present_in (va ∷ vas) name = str_eq va.va_name name || present_in vas name

unfoldable pub config_present : Config → Bytes → Bool
unfolding present_in
config_present cf name = present_in cf.variables name

unfoldable pub config_append_string : Config → Bytes → Bytes → Config
unfolding config_append
config_append_string cf name str = config_append cf name (string str)

-- `true` for the result 1, an error.
unfoldable pub config_append_var : Config → Bytes → Bool × Config
unfolding config_append_string
config_append_var cf str = elim (strchr str b'=') [
  | none ↦ (true, cf)
  | some (name, val) ↦ elim (config_find_grammar_for_keyword cf.grammar name) [
    | some gr ↦ (true, cf)
    | none ↦ (false, config_append_string cf name val)
  ]
]

-- The default that is no function, for the type of the variable.
unfoldable pub string_default : GrammarDefault → Bytes
string_default (s8 str) = str
string_default _ = []

unfoldable pub integer_default : GrammarDefault → ℤ
integer_default (i32 v) = v
integer_default _ = pos 0

-- `none` for INVALID, where the C code traps.
unfoldable pub default_value : VariableType → GrammarDefault → Option VariableValue
unfolding string_default integer_default
default_value invalid_type d = none
default_value integer_type d = some (integer (integer_default d))
default_value string_type d = some (string (string_default d))
default_value directory_type d = some (directory (string_default d))
default_value list_type d = some (list [])

unfoldable pub joined : List Bytes → Bytes
joined [] = []
joined (str ∷ []) = str
joined (str ∷ strs) = str ++ b' ' ∷ joined strs

-- The text of a value.
unfoldable pub value_text : VariableValue → Option Bytes
unfolding joined
value_text invalid = none
value_text (integer v) = some (print_int v)
value_text (string str) = some str
value_text (directory str) = some str
value_text (list strs) = some (joined strs)

is_early_grammar : Option Grammar → Bool
is_early_grammar none = false
is_early_grammar (some gr) = gr.gr_flags.early

unfoldable pub is_early_variable : Config → Bytes → Bool
unfolding is_early_grammar
is_early_variable cf name = is_early_grammar (config_find_grammar_for_interpolation cf.grammar name)

-- What an append gives: the variable, with the new state.
abbrev pub Found : Type 0
Found = Option VariableValue × Config

appended : Config → Bytes → VariableValue → Found
unfolding config_append
appended cf name val = (some val, config_append cf name val)

or_empty : Option Bytes → Bytes
or_empty none = []
or_empty (some str) = str

exec_dir : Option Bytes → Bytes
exec_dir none = codes "/usr/local/libexec/robsd"
exec_dir (some []) = codes "/usr/local/libexec/robsd"
exec_dir (some (c ∷ str)) = c ∷ str

abbrev pub rdomain_min : ℕ
rdomain_min = 32

abbrev pub rdomain_max : ℕ
rdomain_max = 256

-- The number, and the counter behind it.
unfoldable pub next_rdomain : ℕ → ℕ × ℕ
next_rdomain rdomain =
    if rdomain == rdomain_max then (rdomain_min, rdomain_min) else (rdomain, rdomain + 1)

unfoldable pub config_default_rdomain : Config → Found
unfolding next_rdomain
config_default_rdomain cf =
    let r = next_rdomain cf.rdomain in (some (integer (pos r.0)), record cf { rdomain = r.1 })

-- The text before the NUL that ends a string.
before_nul : Bytes → Bytes
before_nul text = elim (strchr text 0) [ none ↦ text | some (str, rest) ↦ str ]

-- The first line of the lock file; without a newline there is none.
first_line : Option Bytes → Option Bytes
unfolding before_nul
first_line none = none
first_line (some text) = elim (strchr (before_nul text) b'\n') [
  | none ↦ none
  | some (line, rest) ↦ some line
]

-- The search for a variable, on the search that it calls for defaults, `find`.
module _ (sys : System) (find : Config → Bytes → Option VariableValue × Config) where
  unfoldable pub lookup_found : Found → Option Bytes × Config
  lookup_found (none, cf) = (none, cf)
  lookup_found (some val, cf) =
      if is_variable_value_valid val then (value_text val, cf) else (none, cf)

  unfoldable pub lookup_with : Bytes → Config → Option Bytes × Config
  unfolding lookup_found
  lookup_with name cf =
      if cf.early && not (is_early_variable cf name)
      then (none, cf)
      else lookup_found (find cf name)

  build_dir_at : Bytes → Result Bytes × Config → Found
  unfolding first_line appended
  build_dir_at name (done path, cf) = elim (first_line (sys.read_file path)) [
    | none ↦ (none, cf)
    | some line ↦ appended cf name (string line)
  ]
  build_dir_at name (failed, cf) = (none, cf)
  build_dir_at name (out_of_fuel, cf) = (none, record cf { stuck = true })

  unfoldable pub config_default_build_dir : Config → Bytes → Found
  unfolding build_dir_at lookup_with
  config_default_build_dir cf name =
      build_dir_at name
        (interpolate_str {S = Config} lookup_with false (codes "${robsddir}/.running") cf)

  unfoldable pub call_default : DefaultFun → Config → Bytes → Found
  unfolding config_default_build_dir appended exec_dir or_empty config_default_rdomain
  call_default default_build_dir cf name = config_default_build_dir cf name
  call_default default_exec_dir cf name = appended cf name (string (exec_dir sys.execdir))
  call_default default_inet4 cf name = appended cf name (string (or_empty sys.egress_inet4))
  call_default default_inet6 cf name = appended cf name (string (or_empty sys.egress_inet6))
  call_default default_ncpu cf name =
      appended cf name
        (integer (if eqb_ℤ sys.nprocessors (negsuc 0) then pos 1 else sys.nprocessors))
  call_default default_trace cf name =
      appended cf name (string (if cf.trace then codes "-x" else []))
  call_default default_rdomain cf name = config_default_rdomain cf
  call_default default_regress_targets cf name = appended cf name (list (codes "regress" ∷ []))
  call_default default_parallel cf name = find cf (codes "parallel")
  call_default default_regress_timeout cf name = find cf (codes "regress-timeout")

  default_by_fun : GrammarDefault → Config → Bytes → Found
  unfolding call_default
  default_by_fun (fun f) cf name = call_default f cf name
  default_by_fun _ cf name = (none, cf)

  grammar_default : Config → Bytes → Option Grammar → Found
  unfolding default_by_fun default_value
  grammar_default cf name none = (none, cf)
  grammar_default cf name (some gr) =
      if gr.gr_flags.req
      then (none, cf)
      else if gr.gr_flags.is_fun
      then default_by_fun gr.gr_default cf name
      else (default_value gr.gr_type gr.gr_default, cf)

  unfoldable pub find_with : Config → Bytes → Found
  unfolding grammar_default
  find_with cf name = elim (find_variable cf.variables name) [
    | some val ↦ (some val, cf)
    | none ↦ grammar_default cf name (config_find_grammar_for_interpolation cf.grammar name)
  ]

unfoldable pub find_at : System → ℕ → Config → Bytes → Found
unfolding find_with
find_at sys zero cf name = (none, record cf { stuck = true })
find_at sys (suc depth) cf name = find_with sys (find_at sys depth) cf name

-- A search that looks for a default looks for `robsddir`, whose value may have variables with
-- defaults; beyond that depth lies only a `robsddir` that depends on `builddir`.
abbrev pub search_depth : ℕ
search_depth = 3

module _ (sys : System) where
  unfoldable pub config_find : Config → Bytes → Found
  unfolding find_at
  config_find cf name = find_at sys search_depth cf name

  unfoldable pub config_interpolate_lookup : Bytes → Config → Option Bytes × Config
  unfolding config_find lookup_with
  config_interpolate_lookup name cf = lookup_with sys config_find name cf

  unfoldable pub config_interpolate_str : Config → Bytes → Result Bytes × Config
  unfolding config_interpolate_lookup
  config_interpolate_str cf str =
      interpolate_str {S = Config} config_interpolate_lookup false str cf

  unfoldable pub config_interpolate_file : Config → Option (List Bytes) → Result Bytes × Config
  unfolding config_interpolate_lookup
  config_interpolate_file cf lines =
      interpolate_file {S = Config} config_interpolate_lookup false lines cf

  unfoldable pub config_interpolate_early : Config → Bytes → Result Bytes × Config
  unfolding config_interpolate_lookup
  config_interpolate_early cf template =
      let r =
        interpolate_str {S = Config} config_interpolate_lookup true template
          (record cf { early = true }) in
      (r.0, record r.1 { early = false })

-- The value of the first variable of a name, in place.
unfoldable pub update_variable : List Variable → Bytes → VariableValue → List Variable
update_variable [] name val = []
update_variable (va ∷ vas) name val =
    if str_eq va.va_name name
    then record va { va_val = val } ∷ vas
    else va ∷ update_variable vas name val

-- `config_find_or_create_list`; the variable is there afterwards.
unfoldable pub create_list : Config → Bytes → Config
unfolding config_present config_append
create_list cf name = if config_present cf name then cf else config_append cf name (list [])

-- The values put behind those of the variable, which `config_find_or_create_list` gives; `none` is a
-- failed assertion.
unfoldable pub concat_to : Config → Bytes → VariableValue → Option Config
unfolding create_list update_variable find_variable
concat_to cf name val =
    let cf' = create_list cf name in
    elim (find_variable cf'.variables name) [
      | none ↦ none
      | some old ↦ elim (variable_value_concat old val) [
        | none ↦ none
        | some new ↦ some (record cf' { variables = update_variable cf'.variables name new })
      ]
    ]
