-- ===== src/RegressLog/Exit.antt =====
-- What robsd-regress-log prints, and its exit status.
use robsd.Base.{
  ◌⊎◌, ℕ, suc, ◌+◌, Bool, true, false, ◌&&◌, List, [], ◌∷◌, ◌++◌, Option, none, some, if◌then◌else◌,
  ◌==◌, ltb, Bytes, length, map, ◌≡◌, ◌∙◌, refl, sym, ap, arith, append-nil, append_assoc,
  Bool-cases, inl, inr,
}
use robsd.RegressLog.{
  LogFlags, buffer_pop, before_file, regress_log_parse, file_round, files_loop, regress_log_main,
}
use robsd.RegressLog.Extract.{tests, joined, regress_log_parse_lem}

text_of : LogFlags → List Bytes → List Bytes
text_of flags [] = []
text_of flags (t ∷ ts) = joined flags.log_newline (t ∷ ts) ∷ []

pop_newline : (bf : Bytes) → buffer_pop (bf ++ b'\n' ∷ []) ≡ bf
pop_newline [] = refl
pop_newline (c ∷ []) = refl
pop_newline (c ∷ d ∷ bf) = ap (λ t. c ∷ t) (pop_newline (d ∷ bf))

joined_nil : (first : Bool) → joined first [] ≡ []
unfolding joined
joined_nil true = refl
joined_nil false = refl

abbrev State : Type 0
State = Bytes × ℕ × Bool

state_eq :
    {a a' : Bytes} {n n' : ℕ} (e : Bool) → a ≡ a' → n ≡ n' → ◌≡◌ {A = State} (a, n, e) (a', n', e)
state_eq e p q = rw (p, q) refl

printed :
    (doprint : Bool) (ts : List Bytes)
    → (if ltb 0 (length ts) && doprint then joined false ts else [])
      ≡ (if doprint then joined false ts else [])
unfolding joined
printed true [] = refl
printed false [] = refl
printed doprint (t ∷ ts) =
    let positive : ltb 0 (suc (length ts)) ≡ true = ground arith in rw positive refl

module _ (lines : Bytes → List Bytes) (flags : LogFlags) where
  -- The texts of the logs that have a test.
  unfoldable pub found : List Bytes → List Bytes
  unfolding text_of
  found [] = []
  found (file ∷ files) = text_of flags (tests flags (lines file)) ++ found files

  round_none :
      (bf : Bytes) (n : ℕ) (file : Bytes)
      → flags.log_peek ≡ false
      → tests flags (lines file) ≡ []
      → file_round lines flags (some file) (bf, n, false) ≡ (bf, n, false)
  unfolding file_round
  round_none bf n file h e =
      let parsed = regress_log_parse_lem lines flags file (before_file n bf) h in
      elim (Bool-cases (ltb 0 n)) [
        | inl f ↦
            rw (file_round, parsed)
              (rw (e, joined_nil, f)
                (state_eq false (ap buffer_pop (append-nil (bf ++ b'\n' ∷ [])) ∙ pop_newline bf)
                  refl))
        | inr f ↦
            rw (file_round, parsed) (rw (e, joined_nil, f) (state_eq false (append-nil bf) refl))
      ]

  round_some :
      (bf : Bytes) (n : ℕ) (file t : Bytes) (ts : List Bytes)
      → flags.log_peek ≡ false
      → tests flags (lines file) ≡ t ∷ ts
      → file_round lines flags (some file) (bf, n, false)
        ≡ (before_file n bf ++ joined flags.log_newline (t ∷ ts), suc n, false)
  unfolding file_round
  round_some bf n file t ts h e =
      let parsed = regress_log_parse_lem lines flags file (before_file n bf) h in
      let nonzero : (suc (length ts) == 0) ≡ false = ground arith in
      rw (file_round, parsed) (rw e (rw nonzero refl))

  before_lem :
      (bf : Bytes) (n : ℕ) (t : Bytes) (ts : List Bytes)
      → (before_file n bf ++ t) ++ joined true ts ≡ bf ++ joined (ltb 0 n) (t ∷ ts)
  unfolding joined
  before_lem bf n t ts = elim (Bool-cases (ltb 0 n)) [
    | inl e ↦ rw e (append_assoc (bf ++ b'\n' ∷ []) t _ ∙ append_assoc bf (b'\n' ∷ []) _)
    | inr e ↦ rw e (append_assoc bf t _)
  ]

  List-cases : (ts : List Bytes) → (ts ≡ []) ⊎ ((u : Bytes) × (us : List Bytes) × (ts ≡ u ∷ us))
  List-cases [] = inl refl
  List-cases (u ∷ us) = inr (u, us, refl)

  loop_lem :
      (files : List Bytes) (bf : Bytes) (n : ℕ)
      → flags.log_peek ≡ false
      → files_loop lines flags (map some files) (bf, n, false)
        ≡ (bf ++ joined (ltb 0 n) (found files), n + length (found files), false)
  unfolding files_loop found text_of
  loop_lem [] bf n h =
      state_eq false (rw (joined_nil (ltb 0 n)) (sym (append-nil bf))) (omega arith)
  loop_lem (file ∷ files) bf n h = elim (List-cases (tests flags (lines file))) [
    | inl e ↦ rw (files_loop, round_none bf n file h e) (rw (found, e) (loop_lem files bf n h))
    | inr (t, ts, e) ↦
        let text = joined flags.log_newline (t ∷ ts) in
        let positive : ltb 0 (suc n) ≡ true = ground arith in
        rw (files_loop, round_some bf n file t ts h e)
          (rw (found, e)
            (loop_lem files (before_file n bf ++ text) (suc n) h
              ∙ state_eq false (rw positive (before_lem bf n text (found files))) (omega arith)))
  ]

  -- Where all logs can be read, the program prints the tests of those that have one, with an empty
  -- line between two logs, or nothing with -n; its status is 0 if there is one, and 1 if not.
  pub regress_log_main-readable :
      (doprint : Bool) (files : List Bytes)
      → flags.log_peek ≡ false
      → regress_log_main lines flags doprint (map some files) ≡ (
        (if doprint then joined false (found files) else []),
        if length (found files) == 0 then 1 else 0,
      )
  unfolding regress_log_main
  regress_log_main-readable doprint files h =
      let zero_add : 0 + length (found files) ≡ length (found files) = omega arith in
      rw (regress_log_main, loop_lem files [] 0 h)
        (rw zero_add (
          ap (λ t. (t, if length (found files) == 0 then 1 else 0))
            (printed doprint (found files))))

  sticky_round :
      (file : Option Bytes) (bf : Bytes) (n : ℕ)
      → (file_round lines flags file (bf, n, true)).2 ≡ true
  unfolding file_round
  sticky_round file bf n = ground arith

  sticky_state :
      (file : Option Bytes) (s : State) → s.2 ≡ true → (file_round lines flags file s).2 ≡ true
  sticky_state file s h =
      let e : ◌≡◌ {A = State} s (s.0, s.1, true) = rw (← h) refl in rw e (sticky_round file s.0 s.1)

  sticky :
      (files : List (Option Bytes)) (s : State)
      → s.2 ≡ true
      → (files_loop lines flags files s).2 ≡ true
  unfolding files_loop
  sticky [] s h = h
  sticky (file ∷ files) s h = sticky files (file_round lines flags file s) (sticky_state file s h)

  unreadable :
      (before after : List (Option Bytes)) (s : State)
      → (files_loop lines flags (before ++ none ∷ after) s).2 ≡ true
  unfolding files_loop file_round regress_log_parse
  unreadable [] after s = sticky after _ refl
  unreadable (file ∷ before) after s = unreadable before after (file_round lines flags file s)

  -- Where one of the logs cannot be read, the program prints nothing, and its status is 2.
  pub regress_log_main-unreadable :
      (doprint : Bool) (before after : List (Option Bytes))
      → regress_log_main lines flags doprint (before ++ none ∷ after) ≡ ([], 2)
  unfolding regress_log_main
  regress_log_main-unreadable doprint before after =
      let e = unreadable before after ([], 0, false) in rw (regress_log_main, e) refl
