-- ===== src/Config/Grammar.antt =====
-- The grammars: what a configuration may define, with the parser of each value and its default.
pub mod Tables
pub mod Match
pub mod Parallel
use robsd.Base.{
  ℕ, Bool, true, false, ◌&&◌, ◌||◌, List, [], ◌∷◌, Option, none, some, ◌==◌, if◌then◌else◌, Bytes,
  str_eq, ℤ,
}
use robsd.Config.Value.{VariableType}

-- The functions that stand in `gr_fn`, but for NULL.
pub data Parser : Type 0 where
  parse_boolean parse_string parse_integer parse_glob parse_list parse_user parse_timeout : Parser
  parse_directory parse_regress parse_regress_env parse_canvas_directory : Parser
  parse_canvas_step : Parser

-- The functions that stand in `gr_default`.
pub data DefaultFun : Type 0 where
  default_build_dir default_exec_dir default_inet4 default_inet6 default_ncpu : DefaultFun
  default_trace default_rdomain default_regress_targets default_parallel : DefaultFun
  default_regress_timeout : DefaultFun

-- The union `gr_default`; `null` is all zero.
pub data GrammarDefault : Type 0 where
  null : GrammarDefault
  s8 : Bytes → GrammarDefault
  i32 : ℤ → GrammarDefault
  fun : DefaultFun → GrammarDefault

-- The bits of `gr_flags`.
pub record GrammarFlags : Type 0 where
  pub req : Bool
  pub rep : Bool
  pub pat : Bool
  pub is_fun : Bool
  pub early : Bool

pub record Grammar : Type 0 where
  pub gr_kw : Bytes
  pub gr_type : VariableType
  pub gr_fn : Option Parser
  pub gr_flags : GrammarFlags
  pub gr_default : GrammarDefault

-- fnmatch(3) without flags, for patterns in which only the star is special, as it is in the tables.
any_suffix : (Bytes → Bool) → Bytes → Bool
any_suffix f [] = f []
any_suffix f (c ∷ s) = f (c ∷ s) || any_suffix f s

first_byte : ℕ → (Bytes → Bool) → Bytes → Bool
first_byte p f [] = false
first_byte p f (c ∷ s) = p == c && f s

is_empty : Bytes → Bool
is_empty [] = true
is_empty (c ∷ s) = false

unfoldable pub fnmatch : Bytes → Bytes → Bool
unfolding any_suffix first_byte is_empty
fnmatch [] s = is_empty s
fnmatch (p ∷ ps) s =
    let rest = fnmatch ps in
    elim (p == b'*') [ true ↦ any_suffix rest s | false ↦ first_byte p rest s ]

unfoldable pub grammar_equals : Grammar → Bytes → Bool
unfolding fnmatch
grammar_equals gr needle =
    if str_eq gr.gr_kw needle
    then true
    else if gr.gr_flags.pat
    then fnmatch gr.gr_kw needle
    else false

abbrev has_parser : Option Parser → Bool
has_parser none = false
has_parser (some fn) = true

unfoldable pub config_find_grammar_for_keyword : List Grammar → Bytes → Option Grammar
config_find_grammar_for_keyword [] needle = none
config_find_grammar_for_keyword (gr ∷ grs) needle =
    if has_parser gr.gr_fn && str_eq gr.gr_kw needle
    then some gr
    else config_find_grammar_for_keyword grs needle

unfoldable pub config_find_grammar_for_interpolation : List Grammar → Bytes → Option Grammar
unfolding grammar_equals
config_find_grammar_for_interpolation [] name = none
config_find_grammar_for_interpolation (gr ∷ grs) name =
    if grammar_equals gr name then some gr else config_find_grammar_for_interpolation grs name
