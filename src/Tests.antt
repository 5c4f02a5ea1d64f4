-- ===== src/Tests.antt =====
-- The theorems at concrete inputs, and tests.
mod Files
mod Configs
mod Invocations
use robsd.Base.{
  contains, starts_with, str_eq, Bool-cases, inl, inr, ℕ, zero, suc, ◌<◌, Bool, true, false, List,
  [], ◌∷◌, ◌++◌, Option, none, some, ◌≡◌, ◌≢◌, ◌↔◌, ◌≤ℤ◌, refl, arith, Bytes, codes, ℤ, pos, negsuc,
  Result, done, failed, out_of_fuel, All, ◌⊎◌, length, map, ltb, if◌then◌else◌, ◌==◌, take, take,
}
use robsd.Lexer.{
  Token, Lexer, lexer_eof, lexer_start, lexer_getc, lexer_ungetc, lexer_next, lexer_expect,
  lexer_peek, lexer_if,
}
use robsd.Lexer.Cursor.{Matches, Differs, advance, walk-IsNext}
use robsd.Lexer.Input.{start-IsAt, ungetc-getc}
use robsd.Interpolate.{interpolate, interpolate_buffer, interpolate_str}
use robsd.Interpolate.Template.{
  IsValue, IsTemplate, Chunk, text, variable, print, expand, outcome, print_value,
  interpolate-print,
}
use robsd.Interpolate.Fuel.{interpolate-ne-out_of_fuel}
use robsd.Interpolate.Append.{behind, buffer-behind}
use robsd.Strtonum.{number, strtonum, print_int, llong_min, llong_max}
use robsd.Strtonum.Print.{strtonum-print_int, strtonum_bounds}
use robsd.Mode.{robsd_cross, robsd_mode_parse, robsd_mode_str}
use robsd.Mode.Names.{parse_iff_str}
use robsd.RegressLog.{
  LogFlags, ismarker_regress, regress_log_parse, regress_log_peek, regress_log_trim,
  regress_log_main,
}
use robsd.RegressLog.Extract.{
  tests, joined, sign, unlines, skip_trace, regress_log_parse_lem, peek-parse,
}
use robsd.RegressLog.Trim.{trim_end, regress_log_trim_lem}
use robsd.RegressLog.Exit.{found, regress_log_main-readable, regress_log_main-unreadable}
use robsd.RegressLog.Markers.{Stays, last_of, ismarker_regress_iff}
use robsd.Report.{buffer_trim_lines, report_sanitize}
use robsd.Report.Trim.{IsTrimmed, buffer_trim_lines-IsTrimmed}
use robsd.Report.Clean.{IsClean, report_sanitize-IsClean}
use robsd.Html.Nodes.{Nodes, end, node, emit, emit-print}
use robsd.Html.Nodes as Nodes
use robsd.Config.Steps.{ArgvStep}
use robsd.RobsdStep.Listing.{list_from, print_steps, list_from-suffix}

-- ${a} is x${b}, and ${b} is y.
abbrev env : Bytes → Option (List Chunk)
env x =
    if str_eq x (codes "a")
    then some (text (codes "x") ∷ variable (codes "b") ∷ [])
    else if str_eq x (codes "b")
    then some (text (codes "y") ∷ [])
    else none

abbrev lookup : Bytes → Unit {0} → Option Bytes × Unit {0}
lookup name s = (print_value (env name), s)

env-IsValue : (x : Bytes) → IsValue (env x)
env-IsValue x = elim (Bool-cases (str_eq x (codes "a"))) [
  | inl e ↦ rw e (ground arith)
  | inr e ↦ elim (Bool-cases (str_eq x (codes "b"))) [
    | inl f ↦ rw (e, f) (ground arith)
    | inr f ↦ rw (e, f) tt
  ]
]

abbrev template : List Chunk
template = text (codes "<") ∷ variable (codes "a") ∷ text (codes ">") ∷ []

template-IsTemplate : IsTemplate template
template-IsTemplate = ground arith

interpolate-print_example :
    interpolate lookup false 4 (codes "= ") (print template) tt
    ≡ outcome (codes "= ") (expand env false 4 template) tt
interpolate-print_example =
    interpolate-print lookup false env (λ x u. refl) env-IsValue 4 (codes "= ") template tt
      template-IsTemplate

interpolate-ne-out_of_fuel_example :
    (interpolate lookup false 4 [] (codes "${a}") tt).0 ≢ out_of_fuel
interpolate-ne-out_of_fuel_example = interpolate-ne-out_of_fuel lookup false 4 [] (codes "${a}") tt

buffer-behind_example :
    interpolate_buffer lookup false (codes "${a}") (codes "before ") tt
    ≡ behind (codes "before ") (interpolate_str lookup false (codes "${a}") tt)
buffer-behind_example = buffer-behind lookup false (codes "${a}") (codes "before ") tt

strtonum-print_int_example :
    strtonum (print_int (negsuc 41)) llong_min llong_max ≡ number (negsuc 41)
strtonum-print_int_example =
    strtonum-print_int (negsuc 41) llong_min llong_max (omega arith) (omega arith) (omega arith)
      (omega arith)

in_range_text : strtonum (codes "17") (pos 1) (pos 20) ≡ number (pos 17)
unfolding strtonum
in_range_text = refl

strtonum_bounds_example : (pos 1 ≤ℤ pos 17) × (pos 17 ≤ℤ pos 20)
strtonum_bounds_example = strtonum_bounds (codes "17") (pos 1) (pos 20) (pos 17) in_range_text

parse_iff_str_example :
    (robsd_mode_parse (codes "robsd-cross") ≡ some robsd_cross)
    ↔ (codes "robsd-cross" ≡ robsd_mode_str robsd_cross)
parse_iff_str_example = parse_iff_str (codes "robsd-cross") robsd_cross

abbrev start : Lexer
start = lexer_start (codes "a,b")

abbrev comma : Token
comma = record { tk_type = 1; tk_str = codes ","; tk_int = pos 0; tk_lno = 1 }

abbrev at_comma : Lexer
at_comma = record start { lx_ahead = comma ∷ [] }

walk-IsNext_example :
    (lexer_next at_comma ≡ (some comma, advance at_comma comma []))
    × (Matches at_comma comma [] 1 ⊎ Differs at_comma comma [] 1)
walk-IsNext_example = walk-IsNext at_comma comma [] 1 (record { before_eof = tt; ahead = refl })

ungetc-getc_example :
    ((lexer_getc start).ch ≡ b'a') × (lexer_ungetc (lexer_getc start).lx b'a' ≡ start)
ungetc-getc_example = ungetc-getc start b'a' (codes ",b") (start-IsAt (codes "a,b")) refl refl

abbrev failed_only : LogFlags
failed_only = record {
  log_failed = true;
  log_skipped = false;
  log_xfailed = false;
  log_xpassed = false;
  log_newline = false;
  log_peek = false;
}

-- The lines of a log, whatever its bytes are.
abbrev log_lines : Bytes → List Bytes
log_lines file =
    codes "+ trace"
    ∷ codes "==== one ===="
    ∷ codes "FAILED"
    ∷ codes "==== two ===="
    ∷ file
    ∷ codes "+ end"
    ∷ []

regress_log_parse_lem_example :
    regress_log_parse log_lines failed_only (some (codes "it FAILED")) []
    ≡ some (
      length (tests failed_only (log_lines (codes "it FAILED"))),
      [] ++ joined false (tests failed_only (log_lines (codes "it FAILED"))),
    )
regress_log_parse_lem_example =
    regress_log_parse_lem log_lines failed_only (codes "it FAILED") [] refl

two_tests : length (tests failed_only (log_lines (codes "it FAILED"))) ≡ 2
unfolding tests robsd.RegressLog.Extract.chunks skip_trace robsd.RegressLog.is_wanted
    robsd.RegressLog.isfailed contains starts_with robsd.RegressLog.isxtrace
two_tests = refl

peek-parse_example :
    regress_log_peek log_lines failed_only (some (codes "it FAILED"))
    ≡ sign (
        regress_log_parse log_lines
          (record failed_only { log_peek = false })
          (some (codes "it FAILED"))
          [])
peek-parse_example = peek-parse log_lines failed_only (some (codes "it FAILED")) []

regress_log_trim_lem_example :
    regress_log_trim log_lines (some (codes "text"))
    ≡ some (unlines (trim_end (skip_trace (log_lines (codes "text")))))
regress_log_trim_lem_example = regress_log_trim_lem log_lines (codes "text")

abbrev two_logs : List Bytes
two_logs = codes "it FAILED" ∷ codes "fine" ∷ []

regress_log_main-readable_example :
    regress_log_main log_lines failed_only true (map some two_logs) ≡ (
      (if true then joined false (found log_lines failed_only two_logs) else []),
      if length (found log_lines failed_only two_logs) == 0 then 1 else 0,
    )
regress_log_main-readable_example =
    regress_log_main-readable log_lines failed_only true two_logs refl

regress_log_main-unreadable_example :
    regress_log_main log_lines failed_only true (some (codes "fine") ∷ none ∷ []) ≡ ([], 2)
regress_log_main-unreadable_example =
    regress_log_main-unreadable log_lines failed_only true (some (codes "fine") ∷ []) []

ismarker_regress_iff_example : (ismarker_regress (codes "==== a ====") ≡ true) ↔ (
    (m : Bytes) × (codes "==== a ====" ≡ codes "==== " ++ m ++ codes "====")
    × Stays b' ' m
    × (last_of b' ' m ≡ b' '))
ismarker_regress_iff_example = ismarker_regress_iff (codes "==== a ====")

-- The comment on `ismarker_regress` says /^==== .* ====$/.
refuses_space_equals : ismarker_regress (codes "==== a =b ====") ≡ false
unfolding ismarker_regress
refuses_space_equals = refl

accepts_one_space : ismarker_regress (codes "==== ====") ≡ true
unfolding ismarker_regress
accepts_one_space = refl

report_sanitize-IsClean_example :
    All IsClean (report_sanitize (0 ∷ b'a' ∷ []))
    × (report_sanitize (report_sanitize (0 ∷ b'a' ∷ [])) ≡ report_sanitize (0 ∷ b'a' ∷ []))
    × (All IsClean (0 ∷ b'a' ∷ []) → report_sanitize (0 ∷ b'a' ∷ []) ≡ 0 ∷ b'a' ∷ [])
report_sanitize-IsClean_example = report_sanitize-IsClean (0 ∷ b'a' ∷ [])

abbrev table : Nodes
table = node (codes "table") [] (node (codes "tr") [] end end) end

emit-print_example :
    emit table (record { bf = codes "begin"; depth = 3 })
    ≡ some (record { bf = codes "begin" ++ Nodes.print 3 table; depth = 3 })
emit-print_example = emit-print table (codes "begin") 3 (omega arith, (omega arith, tt, tt), tt)

abbrev two_steps : List ArgvStep
two_steps =
    record { name = codes "env"; argv = none ∷ []; parallel = false }
    ∷ record { name = codes "end"; argv = none ∷ []; parallel = true }
    ∷ []

list_from-suffix_example :
    (list_from 1 two_steps).1 ≡ print_steps 0 (take 1 two_steps) ++ (list_from 2 two_steps).1
list_from-suffix_example = list_from-suffix 1 two_steps (omega arith)

buffer_trim_lines-IsTrimmed_example : IsTrimmed (codes "a\n\n") (buffer_trim_lines (codes "a\n\n"))
buffer_trim_lines-IsTrimmed_example = buffer_trim_lines-IsTrimmed (codes "a\n\n")
