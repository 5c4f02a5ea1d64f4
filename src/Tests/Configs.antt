-- ===== src/Tests/Configs.antt =====
-- The theorems on configurations at concrete inputs.
use Prim.Native.String.{String}
use robsd.Base.{
  ℕ, ◌+◌, ◌*◌, ◌≤◌, ◌<◌, Bool, true, false, List, [], ◌∷◌, ◌++◌, none, some, Bytes, codes, leb,
  if◌then◌else◌, All, ℤ, pos, negsuc, done, failed, ◌≡◌, ◌⊎◌, inl, inr, refl, arith, Bool-cases,
  map, str_eq, isspace, isdigit, strchr,
}
use robsd.Mode.{robsd_regress, robsd_cross, canvas}
use robsd.Lexer.{
  lexer_start, lexer_alloc, lexer_alloc_loop, lexer_getc, lexer_emit, lexer_ungetc, lexer_peek,
  lexer_next, lexer_expect, lexer_prev,
}
use robsd.Config.Token.{token_type_lookup}
use robsd.Config.Grammar.{parse_string, null, config_find_grammar_for_keyword}
use robsd.Config.Grammar.Tables.{
  entry, required, common_grammar, robsd_regress_grammar, robsd_regress_steps,
}
use robsd.Config.Parse.{append_value, config_parse_string}
use robsd.Config.Regress.{regressname, config_parse_regress_option_env}
use robsd.Config.Regress.Env.{env_value, early_result, option_env-variables}
use robsd.Config.Value.{is_variable_value_valid, string_type, integer, string, list}
use robsd.Config.Lex.{
  Overflow, IsOverflow, i32_max, config_lexer_read, skip_loop, space_loop, islower, word_loop,
  string_loop,
}
use robsd.Config.Lex.Digits.{decimal}
use robsd.Config.Lex.Integer.{ReadsInteger, read-ReadsInteger}
use robsd.Interpolate.{
  interpolate_str, interpolate_buffer, interpolate, interpolate_inner, substitute, variable_name,
}
use robsd.Config.State.{
  find_variable, value_text, config_find, System, is_directory, paths, Config, ConfigStep, variable,
  find_variable, config_present,
}
use robsd.Config.State.Keeps.{IsShallow, IsDependent, is_required, is_constant}
use robsd.Config.State.Refines.{
  Change, append, concat, apply_all, spec_all, state_of, variables_of, apply_all-spec_all,
}
use robsd.Config.File.{config_parse, parse_from}
use robsd.Config.Hook.{hook_message}
use robsd.Config.File.{config_copy_grammar}
use robsd.Config.State.Extends.{Extends}
use robsd.Config.Grammar.{config_find_grammar_for_interpolation, grammar_equals, fnmatch}
use robsd.Config.Grammar.Tables.{canvas_grammar}
use robsd.Config.File.Mandatory.{HasMandatory, config_parse-HasMandatory}
use robsd.Config.Steps.{
  ArgvStep, get_steps, config_get_steps, config_robsd_regress_get_steps, parallel_step, script_step,
  regress_script,
}
use robsd.Config.Steps.Parallel.{HoldsInteger, runs_parallel}
use robsd.Config.Steps.Order.{Script, step_of, those, regress_get_steps_lem}
use robsd.Config.Steps.Argv.{AreCommands, config_get_steps-AreCommands}

-- Overflow checks on ints that are not negative; the others are not used.
abbrev checked : ℕ → Bool × ℤ
checked n = if leb n i32_max then (false, pos n) else (true, pos 0)

abbrev checks : Overflow
checks = record {
  i32_mul = λ a b. elim a [
    | negsuc m ↦ (true, pos 0)
    | pos m ↦ elim b [ negsuc n ↦ (true, pos 0) | pos n ↦ checked (m * n) ]
  ];
  i32_add = λ a b. elim a [
    | negsuc m ↦ (true, pos 0)
    | pos m ↦ elim b [ negsuc n ↦ (true, pos 0) | pos n ↦ checked (m + n) ]
  ];
}

checked_fits : (n : ℕ) → n ≤ i32_max → checked n ≡ (false, pos n)
checked_fits n h = ground arith

checked_large : (n : ℕ) → i32_max < n → (checked n).0 ≡ true
checked_large n h = ground arith

checks-IsOverflow : IsOverflow checks
checks-IsOverflow = record {
  mul_fits = λ a b h. checked_fits (a * b) h;
  mul_large = λ a b h. checked_large (a * b) h;
  add_fits = λ a b h. checked_fits (a + b) h;
  add_large = λ a b h. checked_large (a + b) h;
}

-- A machine on which each path is a directory, and each file holds `text`.
abbrev machine : Bytes → System
machine text = record {
  machine = codes "amd64";
  machine_arch = codes "amd64";
  execdir = none;
  nprocessors = pos 4;
  egress_inet4 = none;
  egress_inet6 = none;
  read_file = λ path. some text;
  stat = λ path. is_directory;
  has_user = λ user. true;
  glob = λ pattern. paths [];
}

abbrev no_config : Config
no_config = record {
  path = [];
  mode = robsd_cross;
  grammar = [];
  variables = [];
  steps = [];
  canvas_steps = [];
  early = false;
  rdomain = 0;
  trace = false;
  stuck = false;
}

-- A grammar with one mandatory variable.
abbrev small_config : Config
small_config = record no_config {
  grammar = entry (codes "crossdir") string_type (some parse_string) required null ∷ [];
}

abbrev small_machine : System
small_machine = machine (codes "crossdir \"/c\"\n")

abbrev small_parsed : Config
small_parsed = record small_config {
  variables = variable (codes "crossdir") (string (codes "/c")) ∷ [];
}

small_ok : config_parse checks small_machine small_config ≡ (done false, small_parsed)
unfolding config_parse lexer_alloc lexer_alloc_loop config_lexer_read skip_loop space_loop
    lexer_getc isspace islower word_loop isdigit token_type_lookup str_eq lexer_emit lexer_ungetc
    string_loop parse_from lexer_peek lexer_next lexer_expect lexer_prev
    config_find_grammar_for_keyword config_present config_parse_string
small_ok = refl

-- A canvas, as it is allocated.
abbrev canvas_machine : System
canvas_machine = machine (codes "canvas-name \"c\"\n")

abbrev fresh_canvas : Config
fresh_canvas = record no_config {
  path = codes "/c";
  mode = canvas;
  grammar = config_copy_grammar canvas_machine canvas_grammar;
}

config_parse-HasMandatory_example : All (HasMandatory small_parsed) small_config.grammar
config_parse-HasMandatory_example =
    config_parse-HasMandatory checks small_machine small_config small_parsed small_ok

read-ReadsInteger_example :
    ReadsInteger
      (config_lexer_read checks robsd_cross (lexer_start (codes "42 h")))
      (decimal 0 (codes "42"))
      0
      (codes " h")
unfolding isdigit
read-ReadsInteger_example =
    read-ReadsInteger checks robsd_cross (lexer_start (codes "42 h")) b'4' (codes "2") b' '
      (codes "h") checks-IsOverflow refl (refl, (refl, tt)) refl refl

abbrev changes : List Change
changes =
    append (codes "a") (integer (pos 1))
    ∷ concat (codes "b") (codes "x" ∷ [])
    ∷ append (codes "a") (integer (pos 2))
    ∷ concat (codes "b") (codes "y" ∷ [])
    ∷ []

apply_all-spec_all_example :
    state_of (apply_all changes small_config) ≡ spec_all changes (variables_of small_config)
apply_all-spec_all_example = apply_all-spec_all changes small_config

-- A configuration of robsd-regress with three tests, one of which may not run in parallel.
abbrev tests : List Bytes
tests = codes "bin/a" ∷ codes "bin/b" ∷ codes "bin/c" ∷ []

abbrev regress_config : Config
regress_config = record no_config {
  mode = robsd_regress;
  grammar = robsd_regress_grammar ++ common_grammar (codes "amd64") (codes "amd64");
  variables =
      variable (codes "regress-bin/b-parallel") (integer (pos 0))
      ∷ variable (codes "regress") (list tests)
      ∷ [];
  steps = robsd_regress_steps;
  rdomain = 32;
}

abbrev script : String → String → Script
script name path = (codes name, codes path)

abbrev before : List Script
before =
    script "env" "${exec-dir}/robsd-env.sh"
    ∷ script "pkg-add" "${exec-dir}/robsd-regress-pkg-add.sh"
    ∷ script "cvs" "${exec-dir}/robsd-cvs.sh"
    ∷ script "patch" "${exec-dir}/robsd-patch.sh"
    ∷ script "obj" "${exec-dir}/robsd-regress-obj.sh"
    ∷ script "mount" "${exec-dir}/robsd-regress-mount.sh"
    ∷ []

abbrev behind : List Script
behind =
    script "umount" "${exec-dir}/robsd-regress-umount.sh"
    ∷ script "revert" "${exec-dir}/robsd-revert.sh"
    ∷ script "pkg-del" "${exec-dir}/robsd-regress-pkg-del.sh"
    ∷ script "dmesg" "${exec-dir}/robsd-dmesg.sh"
    ∷ script "end" "/dev/null"
    ∷ []

parallel-HoldsInteger :
    (test : Bytes)
    → HoldsInteger (find_variable regress_config.variables (regressname test (codes "parallel")))
unfolding find_variable regressname str_eq
parallel-HoldsInteger test =
    elim (Bool-cases
      (str_eq (codes "regress-bin/b-parallel") (regressname test (codes "parallel")))) [
        | inl e ↦ (some (pos 0), rw (find_variable, e) refl)
        | inr e ↦ (none, rw (find_variable, e) refl)
      ]

regress_get_steps_lem_example : config_robsd_regress_get_steps (machine []) regress_config ≡ (
  some (
      map step_of before
      ++ map parallel_step (codes "bin/a" ∷ codes "bin/c" ∷ [])
      ++ map (script_step regress_script) (codes "bin/b" ∷ [])
      ++ map step_of behind),
  regress_config,
)
unfolding find_variable runs_parallel those regressname str_eq
regress_get_steps_lem_example =
    regress_get_steps_lem (machine []) regress_config
      (common_grammar (codes "amd64") (codes "amd64")) before behind [] tests refl refl refl
      (none, refl) parallel-HoldsInteger

regress-IsShallow : IsShallow regress_config.grammar
unfolding config_copy_grammar config_find_grammar_for_interpolation is_required is_constant
    grammar_equals str_eq fnmatch
regress-IsShallow = record { robsddir = refl; parallel = refl; timeout = refl }

config_get_steps-AreCommands_example :
    (((config_get_steps (machine []) regress_config true).1.stuck ≡ false)
      ⊎ IsDependent (config_get_steps (machine []) regress_config true).1)
    × ((config_get_steps (machine []) regress_config true).1.trace ≡ false)
    × (((config_get_steps (machine []) regress_config true).0 ≡ failed)
        ⊎ ((sts : List ConfigStep) × (steps : List ArgvStep) × ((get_steps
                (machine [])
                (record regress_config { trace = true })).0
              ≡ some sts)
            × ((config_get_steps (machine []) regress_config true).0 ≡ done steps)
            × AreCommands sts steps))
config_get_steps-AreCommands_example =
    config_get_steps-AreCommands (machine []) regress_config true regress-IsShallow refl

option_env-variables_example :
    (config_parse_regress_option_env
      (machine [])
      (codes "bin/a")
      regress_config
      (done (append_value (list (codes "RDOMAIN=${rdomain}" ∷ []))), lexer_start [])).1.variables
    ≡ (regress_config.variables
        ++ variable (codes "regress-bin/a-env") (
            env_value
              (codes "RDOMAIN=${rdomain}" ∷ [])
              (early_result
                (machine [])
                (codes "bin/a")
                regress_config
                (codes "RDOMAIN=${rdomain}" ∷ [])).0)
          ∷ [])
unfolding regressname
option_env-variables_example =
    option_env-variables (machine []) (codes "bin/a") regress_config (lexer_start [])
      (codes "RDOMAIN=${rdomain}" ∷ []) refl

hook_message_verbose :
    hook_message 1 (codes "echo" ∷ codes "a b" ∷ []) ≡ codes "robsd-hook: exec \"echo\" \"a b\"\n"
unfolding hook_message
hook_message_verbose = refl

hook_message_silent : hook_message 0 (codes "echo" ∷ []) ≡ []
unfolding hook_message
hook_message_silent = refl

-- A `robsddir` that depends on `builddir`: the search for the default of `builddir` calls itself.
abbrev endless_config : Config
endless_config = record no_config {
  grammar = config_copy_grammar canvas_machine canvas_grammar;
  variables = variable (codes "robsddir") (string (codes "/r${builddir}")) ∷ [];
}

builddir_endless : (config_find canvas_machine endless_config (codes "builddir")).1.stuck ≡ true
unfolding config_find config_copy_grammar config_find_grammar_for_interpolation grammar_equals
    str_eq strchr find_variable interpolate_str interpolate_buffer interpolate interpolate_inner
    substitute variable_name is_variable_value_valid value_text
builddir_endless = refl
