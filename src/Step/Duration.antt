-- ===== src/Step/Duration.antt =====
-- `steps_total_duration` of step.c. The sum is an integer; the C code adds int64.
use robsd.Base.{
  ◌⊎◌, Bool, true, false, ◌||◌, List, [], ◌∷◌, ◌++◌, codes, str_eq, ℤ, pos, eqb_ℤ, ◌+ℤ◌, ◌-ℤ◌, ◌≡◌,
}
use robsd.Mode.{RobsdMode, robsd_regress}
use robsd.Step.{Step, StepFile, get_integer, get_str}

-- The `continue` of the loop: a skipped step, and the previous total.
unfoldable pub is_left_out : Step → Bool
is_left_out st =
    eqb_ℤ (get_integer st (codes "skip")) (pos 1)
    || str_eq (get_str st (codes "name")) (codes "end")

unfoldable pub duration_loop : ℤ → List Step → ℤ
unfolding is_left_out
duration_loop duration [] = duration
duration_loop duration (st ∷ sts) = elim (is_left_out st) [
  | true ↦ duration_loop duration sts
  | false ↦ duration_loop (duration +ℤ get_integer st (codes "duration")) sts
]

last_step : Step → List Step → Step
last_step st [] = st
last_step st (u ∷ sts) = last_step u sts

-- The wall clock time of robsd-regress.
wall_clock : List Step → ℤ
unfolding last_step
wall_clock [] = pos 0
wall_clock (st ∷ sts) =
    get_integer (last_step st sts) (codes "time") -ℤ get_integer st (codes "time")

unfoldable pub steps_total_duration : StepFile → RobsdMode → ℤ
unfolding duration_loop wall_clock
steps_total_duration sf mode = elim mode [
  | robsd_regress ↦ wall_clock sf.steps
  | _ ↦ duration_loop (pos 0) sf.steps
]

-- A step that was skipped, or holds a total.
abbrev pub IsLeftOut : Step → Type 0
IsLeftOut st = (get_integer st (codes "skip") ≡ pos 1) ⊎ (get_str st (codes "name") ≡ codes "end")

-- What a total makes of a step: one that is left out does not count anywhere in the file, the duration
-- of any other is added when it is put at the end.
abbrev pub Counts : (List Step → ℤ) → Step → List Step → List Step → Type 0
Counts total st before after =
    (IsLeftOut st × (total (before ++ st ∷ after) ≡ total (before ++ after)))
    ⊎ ((¬ IsLeftOut st)
        × (total (before ++ st ∷ []) ≡ total before +ℤ get_integer st (codes "duration")))
