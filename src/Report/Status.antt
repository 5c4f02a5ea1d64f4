-- ===== src/Report/Status.antt =====
-- When a report says `ok`.
use robsd.Base.{
  ap, get_or, length, length-append, zero, suc, ◌+◌, ◌<◌, ◌≤◌, true, eqb_ℤ, sym, if◌then◌else◌, ℕ,
  ◌↔◌, ◌≢◌, ◌++◌, Bytes, append_assoc, ltb, ◌∙◌, ◌∷◌, false, List, [], ◌∷◌, codes, All, ◌≡◌, refl,
  arith, Bool-cases, inl, inr,
}
use robsd.Mode.{RobsdMode, plain_robsd, robsd_cross, robsd_ports, robsd_regress, canvas}
use robsd.Strtonum.{print_nat, print_int}
use robsd.Strtonum.Print.{print_int-cons, print_int-All}
use robsd.Base.{pos}
use robsd.Step.{get_integer, get_str, Step, StepFile}
use robsd.Report.{
  status_loop, has_failed, count_failures, number_of_failures_report_status, report_status,
}

no_failures : (sts : List Step) → count_failures sts ≡ 0 → All (λ st. has_failed st ≡ false) sts
unfolding count_failures
no_failures [] h = tt
no_failures (st ∷ sts) h = elim (Bool-cases (has_failed st)) [
  | inl e ↦ absurd (ground arith)
  | inr e ↦ (e, no_failures sts (rw (count_failures, e) at h))
]

count_zero : (sts : List Step) → All (λ st. has_failed st ≡ false) sts → count_failures sts ≡ 0
unfolding count_failures
count_zero [] h = refl
count_zero (st ∷ sts) (e, h) = rw (count_failures, e) (count_zero sts h)

count_ne_ok : (n : ℕ) (rest : Bytes) → print_nat n ++ rest ≢ codes "ok"
unfolding print_int
count_ne_ok n rest h =
    let (c, s, e) = print_int-cons (pos n) in
    let digits : All (λ c. c ≢ b'o') (print_nat n) =
      print_int-All (λ c. c ≢ b'o') (λ c d. omega arith) (omega arith) (pos n) in
    let first : All (λ c. c ≢ b'o') (c ∷ s) = rw e at digits in
    let same : (c ∷ s) ++ rest ≡ codes "ok" = rw e at h in first.0 (cc)

failures_ne_ok :
    (n : ℕ) → print_nat n ++ codes " failure" ++ (if ltb 1 n then codes "s" else []) ≢ codes "ok"
failures_ne_ok n h =
    let plural = if ltb 1 n then codes "s" else [] in
    count_ne_ok n (codes " failure" ++ plural)
      (sym (append_assoc (print_nat n) (codes " failure") plural) ∙ h)

-- The status of robsd-regress, and of canvas, is `ok` where no step has failed, and only there.
pub report_status_iff :
    (sf : StepFile)
    → ((report_status sf robsd_regress ≡ codes "ok") ↔ All (λ st. has_failed st ≡ false) sf.steps)
      × (report_status sf canvas ≡ report_status sf robsd_regress)
unfolding report_status number_of_failures_report_status
report_status_iff sf = (
  (
    λ h. elim (Bool-cases (ltb 0 (count_failures sf.steps))) [
      | inl e ↦ absurd (failures_ne_ok (count_failures sf.steps) (rw (report_status, e) at h))
      | inr e ↦ no_failures sf.steps (ground arith)
    ],
    λ h. let e = count_zero sf.steps h in rw e refl,
  ),
  refl,
)

get_or-append :
    (xs ys : List Step) (k : ℕ) (d : Step) → get_or (xs ++ ys) (length xs + k) d ≡ get_or ys k d
get_or-append [] ys k d = let e : 0 + k ≡ k = omega arith in rw e refl
get_or-append (x ∷ xs) ys k d =
    let e : suc (length xs) + k ≡ suc (length xs + k) = omega arith in
    rw e (get_or-append xs ys k d)

All-get_or :
    (P : Step → Type 0) (xs : List Step) (k : ℕ) (d : Step)
    → All P xs
    → k < length xs
    → P (get_or xs k d)
All-get_or P [] k d h l = absurd (omega arith)
All-get_or P (x ∷ xs) zero d (p, h) l = p
All-get_or P (x ∷ xs) (suc k) d (p, h) l = All-get_or P xs k d h (omega arith)

abbrev pub IsSkipped : Step → Type 0
IsSkipped st = eqb_ℤ (get_integer st (codes "skip")) (pos 1) ≡ true

module _ (before : List Step) (st : Step) (skipped : List Step) (h : All IsSkipped skipped) where
  abbrev all_steps : List Step
  all_steps = before ++ st ∷ skipped

  skip_down :
      (k : ℕ)
      → k ≤ length skipped
      → status_loop (length before + suc k) all_steps ≡ status_loop (suc (length before)) all_steps
  unfolding status_loop
  skip_down zero l = let e : length before + 1 ≡ suc (length before) = omega arith in rw e refl
  skip_down (suc k) l =
      let d : Step = record { st_fields = [] } in
      let e : length before + suc (suc k) ≡ suc (length before + suc k) = omega arith in
      let at : get_or all_steps (length before + suc k) d ≡ get_or skipped k d =
        get_or-append before (st ∷ skipped) (suc k) d in
      let is_skipped : IsSkipped (get_or skipped k d) =
        All-get_or IsSkipped skipped k d h (omega arith) in
      rw (e, status_loop, at, is_skipped) (skip_down k (omega arith))

last_lem :
    (before : List Step) (st : Step) (skipped : List Step)
    → All IsSkipped skipped
    → eqb_ℤ (get_integer st (codes "skip")) (pos 1) ≡ false
    → status_loop (length (before ++ st ∷ skipped)) (before ++ st ∷ skipped)
      ≡ (if has_failed st then codes "failed in " ++ get_str st (codes "name") else codes "ok")
unfolding status_loop
last_lem before st skipped h n =
    let d : Step = record { st_fields = [] } in
    let steps = before ++ st ∷ skipped in
    let zero_add : length before + 0 ≡ length before = omega arith in
    let at : get_or steps (length before) d ≡ st =
      ap (λ i. get_or steps i d) (sym zero_add) ∙ get_or-append before (st ∷ skipped) 0 d in
    ap (λ k. status_loop k steps) (length-append before (st ∷ skipped))
    ∙ skip_down before st skipped h (length skipped) (omega arith)
    ∙ rw (status_loop, at, n) (rw at refl)

-- The status of robsd, robsd-cross and robsd-ports is that of the last step that is not skipped:
-- `failed in` and its name, or `ok`.
pub report_status-last :
    (mode : RobsdMode) (columns : List Bytes) (before : List Step) (st : Step) (skipped : List Step)
    → mode ≢ robsd_regress
    → mode ≢ canvas
    → All IsSkipped skipped
    → eqb_ℤ (get_integer st (codes "skip")) (pos 1) ≡ false
    → report_status (record { columns = columns; steps = before ++ st ∷ skipped }) mode
      ≡ (if has_failed st then codes "failed in " ++ get_str st (codes "name") else codes "ok")
unfolding report_status
report_status-last robsd_regress columns before st skipped r c h n = absurd (r refl)
report_status-last canvas columns before st skipped r c h n = absurd (c refl)
report_status-last plain_robsd columns before st skipped r c h n = last_lem before st skipped h n
report_status-last robsd_cross columns before st skipped r c h n = last_lem before st skipped h n
report_status-last robsd_ports columns before st skipped r c h n = last_lem before st skipped h n
