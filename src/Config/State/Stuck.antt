-- ===== src/Config/State/Stuck.antt =====
-- The search for a variable, its defaults and substitution keep what no operation changes, and a search
-- calls itself without end only where `robsddir` has variables in its value.
use robsd.Base.{
  Bool, true, false, not, ◌&&◌, Option, none, some, Bytes, codes, Result, done, failed, out_of_fuel,
  ◌≡◌, ◌≢◌, ◌⊎◌, refl, ap, ◌∙◌, arith, strchr, [], ◌++◌, ℕ, suc, length, Bool-cases, Option-cases,
  inl, inr,
}
use robsd.Interpolate.{interpolate_str}
use robsd.Interpolate.State.{interpolate_str-R}
use robsd.Config.Value.{VariableValue, is_variable_value_valid}
use robsd.Config.Grammar.{
  Grammar, GrammarDefault, null, s8, i32, fun, DefaultFun, default_build_dir, default_exec_dir,
  default_inet4, default_inet6, default_ncpu, default_trace, default_rdomain,
  default_regress_targets, default_parallel, default_regress_timeout,
  config_find_grammar_for_interpolation,
}
use robsd.Config.State.{
  config_append, config_default_rdomain, System, Config, find_variable, is_early_variable,
  lookup_found, lookup_with, build_dir_at, first_line, appended, config_default_build_dir,
  call_default, default_by_fun, grammar_default, find_with, find_at, search_depth, config_find,
  config_interpolate_lookup, config_interpolate_early,
}
use robsd.Interpolate.{
  interpolate_buffer, interpolate, interpolate_inner, substitute, variable_name, max_depth,
}
use robsd.Interpolate.Fuel.{interpolate-ne-out_of_fuel}
use robsd.Config.State.Keeps.{
  Keeps, Keeps-refl, Keeps-trans, IsShallow, IsDependent, IsDependent-Extends, is_plain,
  is_required, is_constant,
}
use robsd.Config.State.Search.{found-same, find_at-Extends}
use robsd.Config.Value.{invalid, integer, string, directory, list}

-- The text of a plain value, or of none.
abbrev IsText : Config → Option Bytes × Config → Type 0
IsText cf r = (r ≡ (none, cf)) ⊎ ((str : Bytes) × (r ≡ (some str, cf)) × (strchr str b'$' ≡ none))

module _ (sys : System) (find : Config → Bytes → Option VariableValue × Config) where
  plain-IsText :
      (cf : Config) (val : VariableValue)
      → is_plain val ≡ true
      → IsText cf (lookup_found sys find (some val, cf))
  unfolding is_plain lookup_found is_variable_value_valid robsd.Config.State.value_text
  plain-IsText cf invalid h = absurd (cc)
  plain-IsText cf (integer v) h = absurd (cc)
  plain-IsText cf (list xs) h = absurd (cc)
  plain-IsText cf (string str) h = inr (str, refl, ground arith)
  plain-IsText cf (directory str) h = inr (str, refl, ground arith)

-- The searches that a default makes, one level below.
module _ (sys : System) (find : Config → Bytes → Option VariableValue × Config) where
  constant-same :
      (cf : Config) (name : Bytes) (gr : Option Grammar)
      → is_constant gr ≡ true
      → (grammar_default sys find cf name gr).1 ≡ cf
  unfolding grammar_default is_constant
  constant-same cf name none h = refl
  constant-same cf name (some gr) h = elim (Bool-cases gr.gr_flags.req) [
    | inl e ↦ rw e refl
    | inr e ↦ elim (Bool-cases gr.gr_flags.is_fun) [
      | inl f ↦ absurd (ground arith)
      | inr f ↦ rw (e, f) refl
    ]
  ]

  find-constant :
      (cf : Config) (name : Bytes)
      → is_constant (config_find_grammar_for_interpolation cf.grammar name) ≡ true
      → (find_with sys find cf name).1 ≡ cf
  unfolding find_with
  find-constant cf name h = elim (Option-cases (find_variable cf.variables name)) [
    | inr (val, e) ↦ rw (find_with, e) refl
    | inl e ↦ rw (find_with, e) (constant-same cf name _ h)
  ]

  required-none :
      (cf : Config) (name : Bytes) (gr : Option Grammar)
      → is_required gr ≡ true
      → grammar_default sys find cf name gr ≡ (none, cf)
  unfolding grammar_default is_required
  required-none cf name none h = refl
  required-none cf name (some gr) h = rw h refl

  plain-cases :
      (cf : Config)
      → IsDependent cf
        ⊎ ((find_variable cf.variables (codes "robsddir") ≡ none)
            ⊎ ((val : VariableValue) × (find_variable cf.variables (codes "robsddir") ≡ some val)
                × (is_plain val ≡ true)))
  plain-cases cf = elim (Option-cases (find_variable cf.variables (codes "robsddir"))) [
    | inl e ↦ inr (inl e)
    | inr (val, e) ↦ elim (Bool-cases (is_plain val)) [
      | inl p ↦ inr (inr (val, e, p))
      | inr p ↦ inl (val, e, p)
    ]
  ]

  lookup-IsText :
      (cf : Config)
      → IsShallow cf.grammar
      → IsDependent cf ⊎ IsText cf (lookup_with sys (find_with sys find) (codes "robsddir") cf)
  unfolding lookup_with find_with
  lookup-IsText cf g =
      elim (Bool-cases (cf.early && not (is_early_variable cf (codes "robsddir")))) [
        | inl e ↦ inr (rw (lookup_with, e) (inl refl))
        | inr e ↦ elim (plain-cases cf) [
          | inl d ↦ inl d
          | inr (inl f) ↦
              let same = required-none cf (codes "robsddir") _ g.robsddir in
              inr (rw (lookup_with, e) (rw (find_with, f) (rw same (inl refl))))
          | inr (inr (val, f, p)) ↦ inr (
              rw (lookup_with, e)
                (rw (find_with, f) (plain-IsText sys (find_with sys find) cf val p)))
        ]
      ]

  module _ (lookup : Bytes → Config → Option Bytes × Config) where
    inner-plain :
        (nested : Bytes → Bytes → Config → Result Bytes × Config) (fuel : ℕ) (bf str : Bytes)
        (cf : Config)
        → strchr str b'$' ≡ none
        → interpolate_inner {S = Config} lookup false nested (suc fuel) bf str cf
          ≡ (done (bf ++ str), cf)
    unfolding interpolate_inner
    inner-plain nested fuel bf str cf p = rw (interpolate_inner, p) refl

    running-same :
        (cf : Config)
        → IsText cf (lookup (codes "robsddir") cf)
        → (interpolate_str {S = Config} lookup false (codes "${robsddir}/.running") cf).1 ≡ cf
    unfolding interpolate_str interpolate_buffer interpolate interpolate_inner substitute
        variable_name strchr
    running-same cf (inl e) = rw (ap (λ r. r.0) e) (ap (λ r. r.1) e)
    running-same cf (inr (str, e, p)) =
        let s = (lookup (codes "robsddir") cf).1 in
        let same = inner-plain (interpolate lookup false 2) (length str) [] str s p in
        rw (ap (λ r. r.0) e) (rw same (ap (λ r. r.1) same ∙ ap (λ r. r.1) e))

  -- The default of `builddir`, two levels above.
  build_dir-searches :
      (cf : Config) (name : Bytes)
      → IsShallow cf.grammar
      → IsDependent cf
        ⊎ ((config_default_build_dir sys (find_with sys find) cf name).1.stuck ≡ cf.stuck)
  unfolding config_default_build_dir appended interpolate_str interpolate_buffer build_dir_at
      config_append
  build_dir-searches cf name g = elim (lookup-IsText cf g) [
    | inl d ↦ inl d
    | inr t ↦
        let lookup = lookup_with sys (find_with sys find) in
        let r = interpolate_str {S = Config} lookup false (codes "${robsddir}/.running") cf in
        inr (
          go r (ap (λ c. c.stuck) (running-same lookup cf t)) (
            interpolate-ne-out_of_fuel lookup false max_depth [] (codes "${robsddir}/.running") cf))
  ]
    where
      go :
          (r : Result Bytes × Config)
          → r.1.stuck ≡ cf.stuck
          → r.0 ≢ out_of_fuel
          → (build_dir_at sys (find_with sys find) name r).1.stuck ≡ cf.stuck
      go (done path, cf') e ne = elim (Option-cases (first_line (sys.read_file path))) [
        | inl f ↦ rw (build_dir_at, f) e
        | inr (line, f) ↦ rw (build_dir_at, f) e
      ]
      go (failed, cf') e ne = e
      go (out_of_fuel, cf') e ne = absurd (ne refl)

  call_default-searches :
      (f : DefaultFun) (cf : Config) (name : Bytes)
      → IsShallow cf.grammar
      → IsDependent cf ⊎ ((call_default sys (find_with sys find) f cf name).1.stuck ≡ cf.stuck)
  unfolding call_default appended config_default_rdomain
  call_default-searches default_build_dir cf name g = build_dir-searches cf name g
  call_default-searches default_exec_dir cf name g = inr refl
  call_default-searches default_inet4 cf name g = inr refl
  call_default-searches default_inet6 cf name g = inr refl
  call_default-searches default_ncpu cf name g = inr refl
  call_default-searches default_trace cf name g = inr refl
  call_default-searches default_rdomain cf name g = inr refl
  call_default-searches default_regress_targets cf name g = inr refl
  call_default-searches default_parallel cf name g =
      inr (ap (λ c. c.stuck) (find-constant cf (codes "parallel") g.parallel))
  call_default-searches default_regress_timeout cf name g =
      inr (ap (λ c. c.stuck) (find-constant cf (codes "regress-timeout") g.timeout))

  grammar_default-searches :
      (cf : Config) (name : Bytes) (gr : Option Grammar)
      → IsShallow cf.grammar
      → IsDependent cf ⊎ ((grammar_default sys (find_with sys find) cf name gr).1.stuck ≡ cf.stuck)
  unfolding grammar_default default_by_fun
  grammar_default-searches cf name none g = inr refl
  grammar_default-searches cf name (some gr) g = elim (Bool-cases gr.gr_flags.req) [
    | inl e ↦ rw e (inr refl)
    | inr e ↦ rw e (elim (Bool-cases gr.gr_flags.is_fun) [
      | inr e2 ↦ rw e2 (inr refl)
      | inl e2 ↦ rw e2 (by_fun gr.gr_default)
    ])
  ]
    where
      by_fun :
          (d : GrammarDefault)
          → IsDependent cf
            ⊎ ((default_by_fun sys (find_with sys find) d cf name).1.stuck ≡ cf.stuck)
      by_fun null = inr refl
      by_fun (s8 str) = inr refl
      by_fun (i32 v) = inr refl
      by_fun (fun f) = call_default-searches f cf name g

  find_with-searches :
      (cf : Config) (name : Bytes)
      → IsShallow cf.grammar
      → IsDependent cf ⊎ ((find_with sys (find_with sys find) cf name).1.stuck ≡ cf.stuck)
  unfolding find_with
  find_with-searches cf name g = elim (Option-cases (find_variable cf.variables name)) [
    | inr (val, e) ↦ rw (find_with, e) (inr refl)
    | inl e ↦ rw (find_with, e) (grammar_default-searches cf name _ g)
  ]

module _ (sys : System) where
  pub find-Keeps : (cf : Config) (name : Bytes) → Keeps cf (config_find sys cf name).1
  unfolding config_find find_at
  find-Keeps cf name =
      let x = find_at-Extends sys search_depth cf name in
      record {
        extends = x;
        searches = λ g h. elim (find_with-searches sys (find_at sys 1) cf name g) [
          | inl d ↦ inr (IsDependent-Extends cf (config_find sys cf name).1 x d)
          | inr e ↦ inl (e ∙ h)
        ];
      }

  interpolate_lookup-Keeps :
      (name : Bytes) (cf : Config) → Keeps cf (config_interpolate_lookup sys name cf).1
  unfolding config_interpolate_lookup lookup_with
  interpolate_lookup-Keeps name cf =
      elim (Bool-cases (cf.early && not (is_early_variable cf name))) [
        | inl e ↦ rw (lookup_with, e) (Keeps-refl cf)
        | inr e ↦
            rw (lookup_with, e)
              (rw (found-same sys (config_find sys) (config_find sys cf name)) (find-Keeps cf name))
      ]

  pub interpolate-Keeps :
      (ignore_errors : Bool) (str : Bytes) (cf : Config)
      → Keeps cf (interpolate_str (config_interpolate_lookup sys) ignore_errors str cf).1
  interpolate-Keeps ignore_errors str cf =
      interpolate_str-R Keeps Keeps-refl Keeps-trans (config_interpolate_lookup sys) ignore_errors
        interpolate_lookup-Keeps str cf

  pub early-Keeps :
      (cf : Config) (template : Bytes) → Keeps cf (config_interpolate_early sys cf template).1
  unfolding config_interpolate_early
  early-Keeps cf template =
      let k = interpolate-Keeps true template (record cf { early = true }) in
      let x = k.extends in
      record {
        extends = record {
          same_mode = x.same_mode;
          same_path = x.same_path;
          same_grammar = x.same_grammar;
          same_steps = x.same_steps;
          not_early = λ h. refl;
          counter = x.counter;
          values = x.values;
          more_names = x.more_names;
        };
        searches = k.searches;
      }
