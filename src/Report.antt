-- ===== src/Report.antt =====
-- The texts of a report, report.c: trimming, the status, durations, and the bytes that a mail cannot
-- hold. Durations are integers, and hours are taken to fit an int.
pub mod Clean
pub mod Status
pub mod Trim
use robsd.Base.{
  ℕ, zero, suc, ◌+◌, ◌-◌, ◌/◌, ◌%◌, Bool, true, false, ◌||◌, ◌&&◌, not, List, [], ◌∷◌, ◌++◌, Option,
  none, some, ltb, leb, ◌==◌, if◌then◌else◌, Bytes, codes, str_eq, length, get_or, take, drop, ℤ,
  pos, negsuc, eqb_ℤ, ltb_ℤ,
}
use robsd.Mode.{RobsdMode, robsd_regress, canvas}
use robsd.Strtonum.{print_nat, print_int}
use robsd.Step.{Step, StepFile, get_integer, get_str, steps_find_by_name, no_field}
use robsd.Step.Duration.{steps_total_duration}
use robsd.RegressLog.{buffer_pop}

-- The loop of `buffer_trim_lines`, for the `buflen` bytes that are left.
unfoldable pub trim_lines_loop : ℕ → Bytes → Bytes
trim_lines_loop zero bf = bf
trim_lines_loop (suc n) bf = elim (get_or bf n 0 == b'\n') [
  | true ↦ trim_lines_loop n (buffer_pop bf)
  | false ↦ bf
]

unfoldable pub buffer_trim_lines : Bytes → Bytes
unfolding trim_lines_loop
buffer_trim_lines bf = trim_lines_loop (length bf) bf

-- The inner loops of `last_lines`: `len` goes back over newlines, or over other bytes.
unfoldable pub back_over : Bool → Bytes → ℕ → ℕ
back_over newlines str zero = zero
back_over newlines str (suc len) = elim (get_or str len 0 == b'\n') [
  | true ↦ if newlines then back_over newlines str len else suc len
  | false ↦ if newlines then suc len else back_over newlines str len
]

unfoldable pub last_lines_loop : ℕ → Bytes → ℕ → ℕ
unfolding back_over
last_lines_loop zero str len = len
last_lines_loop (suc nlines) str len =
    let len' = back_over false str (back_over true str len) in
    elim len' [ zero ↦ zero | suc n ↦ last_lines_loop nlines str (suc n) ]

-- The last lines of a text.
unfoldable pub last_lines : Bytes → ℕ → Bytes
unfolding last_lines_loop
last_lines str nlines = drop (last_lines_loop nlines str (length str)) str

unfoldable pub ports_report_skip_step : Step → Bool
ports_report_skip_step step =
    let name = get_str step (codes "name") in
    not (str_eq name (codes "cvs") || str_eq name (codes "dpb"))

unfoldable pub has_failed : Step → Bool
has_failed step = not (eqb_ℤ (get_integer step (codes "exit")) (pos 0))

unfoldable pub count_failures : List Step → ℕ
count_failures [] = 0
count_failures (st ∷ sts) = elim (has_failed st) [
  | true ↦ suc (count_failures sts)
  | false ↦ count_failures sts
]

unfoldable pub number_of_failures_report_status : List Step → Bytes
unfolding count_failures
number_of_failures_report_status steps =
    let nfailures = count_failures steps in
    if ltb 0 nfailures
    then print_nat nfailures ++ codes " failure" ++ (if ltb 1 nfailures then codes "s" else [])
    else codes "ok"

-- The loop of `report_status`, from the step before index `nsteps` back to the first.
unfoldable pub status_loop : ℕ → List Step → Bytes
unfolding has_failed
status_loop zero steps = codes "ok"
status_loop (suc nsteps) steps =
    let step = get_or steps nsteps (record { st_fields = [] }) in
    elim (eqb_ℤ (get_integer step (codes "skip")) (pos 1)) [
      | true ↦ status_loop nsteps steps
      | false ↦
          if has_failed step then codes "failed in " ++ get_str step (codes "name") else codes "ok"
    ]

unfoldable pub report_status : StepFile → RobsdMode → Bytes
unfolding number_of_failures_report_status status_loop
report_status sf mode = elim mode [
  | robsd_regress ↦ number_of_failures_report_status sf.steps
  | canvas ↦ number_of_failures_report_status sf.steps
  | _ ↦ status_loop (length sf.steps) sf.steps
]

-- A number that `/` and `%` of C, which round towards zero, give for a negative duration.
abbrev opposite : ℕ → ℤ
opposite zero = pos zero
opposite (suc n) = negsuc n

-- `%02d`
unfoldable pub two_digits : ℤ → Bytes
two_digits v = if leb (length (print_int v)) 1 then b'0' ∷ print_int v else print_int v

abbrev clock : (ℕ → ℤ) → ℕ → Bytes
clock sign n =
    two_digits (sign (n / 3600))
    ++ b':' ∷ two_digits (sign (n % 3600 / 60))
    ++ b':' ∷ two_digits (sign (n % 3600 % 60))

unfoldable pub format_duration : ℤ → Bytes
unfolding two_digits
format_duration (pos n) = clock pos n
format_duration (negsuc n) = clock opposite (suc n)

-- The size of an integer.
abbrev abs : ℤ → ℕ
abs (pos n) = n
abs (negsuc n) = suc n

unfoldable pub format_duration_and_delta : ℤ → ℤ → ℤ → Bytes
unfolding format_duration
format_duration_and_delta duration delta delta_threshold =
    if eqb_ℤ delta (pos 0) || not (ltb_ℤ delta_threshold (pos (abs delta)))
    then format_duration duration
    else format_duration duration
      ++ codes " ("
      ++ (if ltb_ℤ delta (pos 0) then b'-' else b'+') ∷ format_duration (pos (abs delta))
      ++ codes ")"

abbrev threshold_duration_s : ℤ
threshold_duration_s = pos 60

unfoldable pub report_stats_duration : StepFile → RobsdMode → Bytes
unfolding format_duration_and_delta
report_stats_duration sf mode = elim (steps_find_by_name sf.steps (codes "end")) [
  | some i ↦
      let end = get_or sf.steps i (record { st_fields = [] }) in
      format_duration_and_delta (get_integer end (codes "duration"))
        (get_integer end (codes "delta")) threshold_duration_s
  | none ↦ format_duration_and_delta (steps_total_duration sf mode) (pos 0) threshold_duration_s
]

-- The switch of `report_sanitize`.
unfoldable pub sanitize_byte : ℕ → Bytes
sanitize_byte c = if c == 0 then codes "\\x00" else if c == b'\r' then codes "\\r" else c ∷ []

unfoldable pub report_sanitize : Bytes → Bytes
unfolding sanitize_byte
report_sanitize [] = []
report_sanitize (c ∷ str) = sanitize_byte c ++ report_sanitize str
