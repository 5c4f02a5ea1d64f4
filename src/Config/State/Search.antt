-- ===== src/Config/State/Search.antt =====
-- The search for a variable, its defaults and substitution keep what no operation changes.
use robsd.Base.{
  ℕ, zero, suc, false, not, ◌&&◌, Option, none, some, Bytes, codes, Result, done, failed,
  out_of_fuel, ◌≡◌, refl, Bool-cases, Option-cases, inl, inr,
}
use robsd.Interpolate.State.{interpolate_str-R}
use robsd.Config.Value.{VariableValue, is_variable_value_valid}
use robsd.Config.Grammar.{
  Grammar, GrammarDefault, null, s8, i32, fun, DefaultFun, default_build_dir, default_exec_dir,
  default_inet4, default_inet6, default_ncpu, default_trace, default_rdomain,
  default_regress_targets, default_parallel, default_regress_timeout,
  config_find_grammar_for_interpolation,
}
use robsd.Config.State.{
  System, Config, find_variable, is_early_variable, lookup_found, lookup_with, build_dir_at,
  first_line, appended, config_default_build_dir, call_default, default_by_fun, grammar_default,
  find_with, find_at,
}
use robsd.Config.State.Extends.{
  Extends, Extends-refl, Extends-trans, append-Extends, rdomain-Extends, stuck-Extends,
}

-- A search for defaults that keeps this, keeps it when it is called for one.
module _ (sys : System) (find : Config → Bytes → Option VariableValue × Config)
    (keeps : (cf : Config) (name : Bytes) → Extends cf (find cf name).1) where
  found-Extends :
      (cf : Config) (r : Option VariableValue × Config)
      → Extends cf r.1
      → Extends cf (lookup_found sys find r).1
  unfolding lookup_found
  found-Extends cf (none, cf') k = k
  found-Extends cf (some val, cf') k = elim (Bool-cases (is_variable_value_valid val)) [
    | inl e ↦ rw e k
    | inr e ↦ rw e k
  ]

  pub lookup-Extends : (name : Bytes) (cf : Config) → Extends cf (lookup_with sys find name cf).1
  unfolding lookup_with
  lookup-Extends name cf = elim (Bool-cases (cf.early && not (is_early_variable cf name))) [
    | inl e ↦ rw (lookup_with, e) (Extends-refl cf)
    | inr e ↦ rw (lookup_with, e) (found-Extends cf (find cf name) (keeps cf name))
  ]

  build_dir_at-Extends :
      (cf : Config) (name : Bytes) (r : Result Bytes × Config)
      → Extends cf r.1
      → Extends cf (build_dir_at sys find name r).1
  unfolding build_dir_at appended
  build_dir_at-Extends cf name (done path, cf') k =
      elim (Option-cases (first_line (sys.read_file path))) [
        | inl e ↦ rw (build_dir_at, e) k
        | inr (line, e) ↦
            rw (build_dir_at, e) (Extends-trans cf cf' _ k (append-Extends cf' name _))
      ]
  build_dir_at-Extends cf name (failed, cf') k = k
  build_dir_at-Extends cf name (out_of_fuel, cf') k = Extends-trans cf cf' _ k (stuck-Extends cf')

  pub call_default-Extends :
      (f : DefaultFun) (cf : Config) (name : Bytes) → Extends cf (call_default sys find f cf name).1
  unfolding call_default appended config_default_build_dir
  call_default-Extends default_build_dir cf name = build_dir_at-Extends cf name _ (
      interpolate_str-R Extends Extends-refl Extends-trans (lookup_with sys find) false
        lookup-Extends (codes "${robsddir}/.running") cf)
  call_default-Extends default_exec_dir cf name = append-Extends cf name _
  call_default-Extends default_inet4 cf name = append-Extends cf name _
  call_default-Extends default_inet6 cf name = append-Extends cf name _
  call_default-Extends default_ncpu cf name = append-Extends cf name _
  call_default-Extends default_trace cf name = append-Extends cf name _
  call_default-Extends default_rdomain cf name = rdomain-Extends cf
  call_default-Extends default_regress_targets cf name = append-Extends cf name _
  call_default-Extends default_parallel cf name = keeps cf (codes "parallel")
  call_default-Extends default_regress_timeout cf name = keeps cf (codes "regress-timeout")

  by_fun-Extends :
      (d : GrammarDefault) (cf : Config) (name : Bytes)
      → Extends cf (default_by_fun sys find d cf name).1
  unfolding default_by_fun
  by_fun-Extends null cf name = Extends-refl cf
  by_fun-Extends (s8 str) cf name = Extends-refl cf
  by_fun-Extends (i32 v) cf name = Extends-refl cf
  by_fun-Extends (fun f) cf name = call_default-Extends f cf name

  grammar_default-Extends :
      (cf : Config) (name : Bytes) (gr : Option Grammar)
      → Extends cf (grammar_default sys find cf name gr).1
  unfolding grammar_default
  grammar_default-Extends cf name none = Extends-refl cf
  grammar_default-Extends cf name (some gr) = elim (Bool-cases gr.gr_flags.req) [
    | inl e ↦ rw e (Extends-refl cf)
    | inr e ↦ rw e (elim (Bool-cases gr.gr_flags.is_fun) [
      | inr e2 ↦ rw e2 (Extends-refl cf)
      | inl e2 ↦ rw e2 (by_fun-Extends gr.gr_default cf name)
    ])
  ]

  find_with-Extends : (cf : Config) (name : Bytes) → Extends cf (find_with sys find cf name).1
  unfolding find_with
  find_with-Extends cf name = elim (Option-cases (find_variable cf.variables name)) [
    | inr (val, e) ↦ rw (find_with, e) (Extends-refl cf)
    | inl e ↦
        rw (find_with, e)
          (grammar_default-Extends cf name (config_find_grammar_for_interpolation cf.grammar name))
  ]

pub find_at-Extends :
    (sys : System) (depth : ℕ) (cf : Config) (name : Bytes)
    → Extends cf (find_at sys depth cf name).1
unfolding find_at
find_at-Extends sys zero cf name = stuck-Extends cf
find_at-Extends sys (suc depth) cf name =
    find_with-Extends sys (find_at sys depth) (find_at-Extends sys depth) cf name

pub found-same :
    (sys : System) (find : Config → Bytes → Option VariableValue × Config)
    (r : Option VariableValue × Config)
    → (lookup_found sys find r).1 ≡ r.1
unfolding lookup_found
found-same sys find (none, cf) = refl
found-same sys find (some val, cf) = elim (Bool-cases (is_variable_value_valid val)) [
  | inl e ↦ rw e refl
  | inr e ↦ rw e refl
]
