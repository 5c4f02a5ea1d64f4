-- ===== src/Config/Steps/Searches.antt =====
-- The steps of a configuration are found, and their commands substituted, by searches that come to an
-- end.
use robsd.Base.{
  Bool, true, false, List, [], ◌∷◌, ◌++◌, Option, some, Bytes, codes, pos, eqb_ℤ, refl,
  Option-cases, Result-cases, Bool-cases, inl, inr,
}
use robsd.Mode.{RobsdMode, plain_robsd, robsd_cross, robsd_ports, robsd_regress, canvas}
use robsd.Config.Value.{VariableValue, invalid, integer, string, directory, list}
use robsd.Config.State.{System, Config, ConfigStep, config_find, config_interpolate_str}
use robsd.Config.State.Extends.{Extends-refl}
use robsd.Config.State.Keeps.{Keeps, Keeps-refl, Keeps-trans, quiet-Keeps}
use robsd.Config.State.Stuck.{find-Keeps, interpolate-Keeps}
use robsd.Config.Regress.{regressname}
use robsd.Config.Steps.{
  is_parallel, integer_value, tests_loop, parallel_step, before_tests,
  config_robsd_regress_get_steps, config_default_get_steps, get_steps, args_loop, step_args,
  commands_loop, config_get_steps,
}

trace-Keeps : (cf : Config) (trace : Bool) → Keeps cf (record cf { trace = trace })
trace-Keeps cf trace =
    let x = Extends-refl cf in
    quiet-Keeps cf _
      (record {
        same_mode = refl;
        same_path = refl;
        same_grammar = refl;
        same_steps = refl;
        not_early = λ h. h;
        counter = λ h. h;
        values = x.values;
        more_names = x.more_names;
      })
      refl

module _ (sys : System) where
  parallel-Keeps : (cf : Config) (test : Bytes) → Keeps cf (is_parallel sys cf test).1
  unfolding is_parallel
  parallel-Keeps cf test =
      let p = config_find sys cf (codes "parallel") in
      let name = regressname test (codes "parallel") in
      let k = find-Keeps sys cf (codes "parallel") in
      elim (Option-cases (integer_value p.0 (pos 1))) [
        | inl e ↦ rw (is_parallel, e) k
        | inr (v, e) ↦ elim (Bool-cases (eqb_ℤ v (pos 0))) [
          | inl f ↦ rw (is_parallel, e) (rw f k)
          | inr f ↦ rw (is_parallel, e) (rw f (Keeps-trans cf p.1 _ k (find-Keeps sys p.1 name)))
        ]
      ]

  tests-Keeps :
      (tests : List Bytes) (steps : List ConfigStep) (no_parallel : List Bytes) (cf : Config)
      → Keeps cf (tests_loop sys tests steps no_parallel cf).1
  unfolding tests_loop
  tests-Keeps [] steps no_parallel cf = Keeps-refl cf
  tests-Keeps (test ∷ tests) steps no_parallel cf =
      let p = is_parallel sys cf test in
      let k = parallel-Keeps cf test in
      elim (Option-cases p.0) [
        | inl e ↦ rw (tests_loop, e) k
        | inr (true, e) ↦
            rw (tests_loop, e)
              (Keeps-trans cf p.1 _ k
                (tests-Keeps tests (steps ++ parallel_step test ∷ []) no_parallel p.1))
        | inr (false, e) ↦
            rw (tests_loop, e)
              (Keeps-trans cf p.1 _ k (tests-Keeps tests steps (no_parallel ++ test ∷ []) p.1))
      ]

  regress-Keeps : (cf : Config) → Keeps cf (config_robsd_regress_get_steps sys cf).1
  unfolding config_robsd_regress_get_steps
  regress-Keeps cf =
      let r = config_find sys cf (codes "regress") in
      let k = find-Keeps sys cf (codes "regress") in
      elim (Option-cases r.0) [
        | inl e ↦ rw (config_robsd_regress_get_steps, e) k
        | inr (invalid, e) ↦ rw (config_robsd_regress_get_steps, e) k
        | inr (integer v, e) ↦ rw (config_robsd_regress_get_steps, e) k
        | inr (string str, e) ↦ rw (config_robsd_regress_get_steps, e) k
        | inr (directory str, e) ↦ rw (config_robsd_regress_get_steps, e) k
        | inr (list tests, e) ↦
            let t = tests_loop sys tests (before_tests cf.steps []).0 [] r.1 in
            let l =
              Keeps-trans cf r.1 t.1 k (tests-Keeps tests (before_tests cf.steps []).0 [] r.1) in
            rw (config_robsd_regress_get_steps, e)
              (elim (Option-cases t.0) [ inl f ↦ rw f l | inr (s, f) ↦ rw f l ])
      ]

  get_steps-Keeps : (cf : Config) → Keeps cf (get_steps sys cf).1
  unfolding get_steps
  get_steps-Keeps cf = by_mode cf.mode
    where
      by_mode :
          (m : RobsdMode)
          → Keeps cf
              (elim m as (λ x. Option (List ConfigStep) × Config) [
                | plain_robsd ↦ (config_default_get_steps cf, cf)
                | robsd_cross ↦ (config_default_get_steps cf, cf)
                | robsd_ports ↦ (config_default_get_steps cf, cf)
                | robsd_regress ↦ config_robsd_regress_get_steps sys cf
                | canvas ↦ (some cf.canvas_steps, cf)
              ]).1
      by_mode plain_robsd = Keeps-refl cf
      by_mode robsd_cross = Keeps-refl cf
      by_mode robsd_ports = Keeps-refl cf
      by_mode robsd_regress = regress-Keeps cf
      by_mode canvas = Keeps-refl cf

  args-Keeps :
      (args : List Bytes) (argv : List (Option Bytes)) (cf : Config)
      → Keeps cf (args_loop sys args argv cf).1
  unfolding args_loop config_interpolate_str
  args-Keeps [] argv cf = Keeps-refl cf
  args-Keeps (arg ∷ args) argv cf =
      let r = config_interpolate_str sys cf arg in
      let k : Keeps cf r.1 = interpolate-Keeps sys false arg cf in
      elim (Result-cases r.0) [
        | inr (inl e) ↦ rw (args_loop, e) k
        | inr (inr e) ↦ rw (args_loop, e) k
        | inl ([], e) ↦ rw (args_loop, e) (Keeps-trans cf r.1 _ k (args-Keeps args argv r.1))
        | inl (c ∷ str, e) ↦
            rw (args_loop, e)
              (Keeps-trans cf r.1 _ k (args-Keeps args (argv ++ some (c ∷ str) ∷ []) r.1))
      ]

  step_args-Keeps : (val : VariableValue) (cf : Config) → Keeps cf (step_args sys val cf).1
  unfolding step_args
  step_args-Keeps invalid cf = Keeps-refl cf
  step_args-Keeps (integer v) cf = Keeps-refl cf
  step_args-Keeps (string str) cf = Keeps-refl cf
  step_args-Keeps (directory str) cf = Keeps-refl cf
  step_args-Keeps (list args) cf = args-Keeps args [] cf

  commands-Keeps : (sts : List ConfigStep) (cf : Config) → Keeps cf (commands_loop sys sts cf).1
  unfolding commands_loop
  commands-Keeps [] cf = Keeps-refl cf
  commands-Keeps (st ∷ sts) cf =
      let a = step_args sys st.command cf in
      let k = step_args-Keeps st.command cf in
      let r = commands_loop sys sts a.1 in
      let l = Keeps-trans cf a.1 r.1 k (commands-Keeps sts a.1) in
      elim (Result-cases a.0) [
        | inr (inl e) ↦ rw (commands_loop, e) k
        | inr (inr e) ↦ rw (commands_loop, e) k
        | inl (argv, e) ↦ elim (Result-cases r.0) [
          | inr (inl f) ↦ rw (commands_loop, e) (rw f l)
          | inr (inr f) ↦ rw (commands_loop, e) (rw f l)
          | inl (steps, f) ↦ rw (commands_loop, e) (rw f l)
        ]
      ]

  pub config_get_steps-Keeps :
      (cf : Config) (trace : Bool) → Keeps cf (config_get_steps sys cf trace).1
  unfolding config_get_steps
  config_get_steps-Keeps cf trace =
      let cf1 = record cf { trace = trace } in
      let s = get_steps sys cf1 in
      let k = Keeps-trans cf cf1 s.1 (trace-Keeps cf trace) (get_steps-Keeps cf1) in
      elim (Option-cases s.0) [
        | inl e ↦ rw (config_get_steps, e) (Keeps-trans cf s.1 _ k (trace-Keeps s.1 false))
        | inr (sts, e) ↦
            let r = commands_loop sys sts s.1 in
            let l = Keeps-trans cf s.1 r.1 k (commands-Keeps sts s.1) in
            rw (config_get_steps, e) (Keeps-trans cf r.1 _ l (trace-Keeps r.1 false))
      ]
