-- ===== src/RegressLog.antt =====
-- Logs of regress tests, regress-log.c, and the program robsd-regress-log.c.
--
-- The lines of a file are what buffer_getline of libks returns in turn, C strings: the argument
-- `lines`. A file is `none` where `buffer_read` returns NULL. Buffers are byte strings; the NUL that
-- `buffer_putc` puts behind `scratch` before it is printed with `%s` ends the C string, and is not
-- a byte of it. The number of matches is an int in the C code, and a line adds one at most.
pub mod Markers
pub mod Extract
pub mod Trim
pub mod Exit
use robsd.Base.{
  ℕ, suc, ◌+◌, Bool, true, false, not, ◌&&◌, ◌||◌, List, [], ◌∷◌, ◌++◌, Option, none, some, ltb,
  ◌==◌, if◌then◌else◌, Bytes, codes, starts_with, contains, length, take, drop,
}

-- The bits of `flags`.
pub record LogFlags : Type 0 where
  pub log_failed : Bool
  pub log_skipped : Bool
  pub log_xfailed : Bool
  pub log_xpassed : Bool
  pub log_newline : Bool
  pub log_peek : Bool

-- The rest of the string from the first `=` behind a space; `prev` is `str[-1]`.
unfoldable pub to_equals : ℕ → Bytes → Bytes
to_equals prev [] = []
to_equals prev (c ∷ str) = if prev == b' ' && c == b'=' then c ∷ str else to_equals c str

-- What follows the space.
abbrev is_end : Bytes → Bool
is_end [] = true
is_end (c ∷ str) = false

unfoldable pub ends_marker : Bytes → Bool
unfolding starts_with
ends_marker str = starts_with str (codes "====") && is_end (drop 4 str)

abbrev behind_needle : Bytes → Bool
behind_needle [] = false
behind_needle (c ∷ str) = c == b' ' && ends_marker (to_equals c str)

unfoldable pub ismarker_regress : Bytes → Bool
unfolding starts_with ends_marker to_equals
ismarker_regress str = starts_with str (codes "====") && behind_needle (drop 4 str)

unfoldable pub ismarker_subdir : Bytes → Bool
unfolding starts_with
ismarker_subdir str = starts_with str (codes "===>")

unfoldable pub ismarker : Bytes → Bool
unfolding ismarker_regress ismarker_subdir
ismarker str = ismarker_regress str || ismarker_subdir str

unfoldable pub isskipped : Bytes → Bool
unfolding contains
isskipped str = contains str (codes "SKIPPED") || contains str (codes "DISABLED")

unfoldable pub isfailed : Bytes → Bool
unfolding contains
isfailed str = contains str (codes "FAILED")

unfoldable pub isxfailed : Bytes → Bool
unfolding contains
isxfailed str = contains str (codes "EXPECTED_FAIL")

unfoldable pub isxpassed : Bytes → Bool
unfolding contains
isxpassed str = contains str (codes "UNEXPECTED_PASS")

unfoldable pub isxtrace : Bytes → Bool
isxtrace [] = false
isxtrace (c ∷ str) = c == b'+'

-- The condition on a line in the loop of `regress_log_parse_impl`.
unfoldable pub is_wanted : LogFlags → Bytes → Bool
unfolding isskipped isfailed isxfailed isxpassed
is_wanted flags line =
    flags.log_skipped && isskipped line
    || (flags.log_failed && isfailed line
        || (flags.log_xfailed && isxfailed line || flags.log_xpassed && isxpassed line))

-- `scratch` with the line added.
unfoldable pub add_line : Bytes → Bytes → Bytes
unfolding ismarker
add_line scratch line = (if ismarker line then [] else scratch) ++ line ++ b'\n' ∷ []

-- `out` with the test added.
unfoldable pub add_test : LogFlags → ℕ → Bytes → Bytes → Bytes
add_test flags nfound out scratch =
    let first = nfound == 0 && not flags.log_newline in
    out ++ (if first then [] else b'\n' ∷ []) ++ scratch

-- The loop of `regress_log_parse_impl`: the number of tests, and the buffer `out`.
unfoldable pub parse_loop : LogFlags → List Bytes → Bool → Bytes → Bytes → ℕ → ℕ × Bytes
unfolding isxtrace add_line is_wanted add_test
parse_loop flags [] xtrace scratch out nfound = (nfound, out)
parse_loop flags (line ∷ ls) xtrace scratch out nfound = elim (xtrace && isxtrace line) [
  | true ↦ parse_loop flags ls xtrace scratch out nfound
  | false ↦
      let scratch' = add_line scratch line in
      elim (is_wanted flags line) [
        | false ↦ parse_loop flags ls false scratch' out nfound
        | true ↦ elim flags.log_peek [
          | true ↦ (suc nfound, out)
          | false ↦ parse_loop flags ls false [] (add_test flags nfound out scratch') (suc nfound)
        ]
      ]
]

-- The loop of `regress_log_trim`; the result is what it prints to `out`.
unfoldable pub trim_loop : List Bytes → Bool → ℕ → Bytes → Bytes
unfolding isxtrace
trim_loop [] xbeg xend bf = take (if xend == 0 then length bf else xend) bf
trim_loop (line ∷ ls) xbeg xend bf = elim (xbeg && isxtrace line) [
  | true ↦ trim_loop ls xbeg xend bf
  | false ↦
      let xend' = if isxtrace line then (if xend == 0 then length bf else xend) else 0 in
      trim_loop ls false xend' (bf ++ line ++ b'\n' ∷ [])
]

-- `buffer_pop(bf, 1)`
abbrev pub buffer_pop : Bytes → Bytes
buffer_pop [] = []
buffer_pop (c ∷ []) = []
buffer_pop (c ∷ cs) = c ∷ buffer_pop cs

abbrev pub before_file : ℕ → Bytes → Bytes
before_file n bf = if ltb 0 n then bf ++ b'\n' ∷ [] else bf

module _ (lines : Bytes → List Bytes) where
  -- `none` for the result -1; `out` is left alone then.
  unfoldable pub regress_log_parse : LogFlags → Option Bytes → Bytes → Option (ℕ × Bytes)
  unfolding parse_loop
  regress_log_parse flags none out = none
  regress_log_parse flags (some file) out = some (parse_loop flags (lines file) true [] out 0)

  unfoldable pub regress_log_peek : LogFlags → Option Bytes → Option ℕ
  regress_log_peek flags file =
      elim (regress_log_parse (record flags { log_peek = true }) file []) [
        | none ↦ none
        | some r ↦ some r.0
      ]

  unfoldable pub regress_log_trim : Option Bytes → Option Bytes
  unfolding trim_loop
  regress_log_trim none = none
  regress_log_trim (some file) = some (trim_loop (lines file) true 0 [])

  -- A round of the loop of `main` over the paths, on `bf`, `n` and `error`. Where the log cannot be
  -- read, `bf` keeps the newline.
  unfoldable pub file_round : LogFlags → Option Bytes → Bytes × ℕ × Bool → Bytes × ℕ × Bool
  file_round flags file (bf, n, error) = elim (regress_log_parse flags file (before_file n bf)) [
    | none ↦ (before_file n bf, n, true)
    | some r ↦
        if r.0 == 0
        then ((if ltb 0 n then buffer_pop r.1 else r.1), n, error)
        else (r.1, suc n, error)
  ]

  unfoldable pub files_loop : LogFlags → List (Option Bytes) → Bytes × ℕ × Bool → Bytes × ℕ × Bool
  unfolding file_round
  files_loop flags [] s = s
  files_loop flags (file ∷ files) s = files_loop flags files (file_round flags file s)

  -- What `main` prints, and its exit status, for flags and paths that `usage` does not refuse.
  unfoldable pub regress_log_main : LogFlags → Bool → List (Option Bytes) → Bytes × ℕ
  unfolding files_loop
  regress_log_main flags doprint files =
      let (bf, n, error) = files_loop flags files ([], 0, false) in
      (
        if not error && (ltb 0 n && doprint) then bf else [],
        if error then 2 else if n == 0 then 1 else 0,
      )
