-- ===== src/Config/Steps/Parallel.antt =====
-- When robsd-regress runs a test in parallel, `is_parallel` of conf-robsd-regress.c.
use robsd.Base.{
  Bool, true, false, not, List, ◌++◌, Option, none, some, Bytes, codes, ℤ, pos, eqb_ℤ, ◌≡◌, refl,
  ◌∙◌, ap, if◌then◌else◌, Bool-cases, Option-cases, inl, inr,
}
use robsd.Config.Value.{VariableValue, integer}
use robsd.Config.Grammar.{Grammar, config_find_grammar_for_interpolation}
use robsd.Config.Grammar.Tables.{robsd_regress_grammar}
use robsd.Config.Grammar.Parallel.{parallel_entry, lookup-parallel, lookup-global}
use robsd.Config.State.{
  System, Config, find_variable, default_value, call_default, find_with, find_at, config_find,
}
use robsd.Config.Regress.{regressname}
use robsd.Config.Steps.{integer_value, is_nonzero, is_parallel}

-- What a variable that holds an integer says; one that is not there says `otherwise`.
unfoldable pub flag : Option VariableValue → Bool → Bool
flag (some (integer v)) otherwise = not (eqb_ℤ v (pos 0))
flag _ otherwise = otherwise

-- Neither `parallel no` nor the option `no-parallel` of the test has been given.
unfoldable pub runs_parallel : Config → Bytes → Bool
unfolding flag
runs_parallel cf test =
    let all = flag (find_variable cf.variables (codes "parallel")) true in
    if all
    then flag (find_variable cf.variables (regressname test (codes "parallel"))) all
    else false

-- The variable is not there, or holds an integer.
abbrev pub as_value : Option ℤ → Option VariableValue
as_value none = none
as_value (some v) = some (integer v)

abbrev pub HoldsInteger : Option VariableValue → Type 0
HoldsInteger found = (n : Option ℤ) × (found ≡ as_value n)

-- The value that a search gives, for the variable if it is there, and the default.
unfoldable pub or_value : Option VariableValue → VariableValue → VariableValue
or_value none d = d
or_value (some val) d = val

name_entry :
    (test : Bytes) (common : List Grammar)
    → config_find_grammar_for_interpolation
        (robsd_regress_grammar ++ common)
        (regressname test (codes "parallel"))
      ≡ some parallel_entry
unfolding regressname
name_entry test common = lookup-parallel test common

module _ (sys : System) (cf : Config) (common : List Grammar)
    (same_grammar : cf.grammar ≡ robsd_regress_grammar ++ common) where
  global_at :
      (find : Config → Bytes → Option VariableValue × Config)
      → find_with sys find cf (codes "parallel")
        ≡ (some (or_value (find_variable cf.variables (codes "parallel")) (integer (pos 1))), cf)
  unfolding find_with or_value default_value
  global_at find = elim (Option-cases (find_variable cf.variables (codes "parallel"))) [
    | inr (val, e) ↦ rw (find_with, e) refl
    | inl e ↦
        let g =
          ap (λ grs. config_find_grammar_for_interpolation grs (codes "parallel")) same_grammar
          ∙ lookup-global common in
        rw (find_with, e) (rw g refl)
  ]

  own_at :
      (find : Config → Bytes → Option VariableValue × Config) (test : Bytes)
      → find_with sys find cf (regressname test (codes "parallel"))
        ≡ (elim (find_variable cf.variables (regressname test (codes "parallel"))) [
          | none ↦ find cf (codes "parallel")
          | some val ↦ (some val, cf)
        ])
  unfolding find_with call_default
  own_at find test =
      elim (Option-cases (find_variable cf.variables (regressname test (codes "parallel")))) [
        | inr (val, e) ↦ rw (find_with, e) refl
        | inl e ↦
            let g : config_find_grammar_for_interpolation cf.grammar
                  (regressname test (codes "parallel"))
                ≡ some parallel_entry =
              ap
                (λ grs.
                  config_find_grammar_for_interpolation grs (regressname test (codes "parallel")))
                same_grammar
              ∙ name_entry test common in
            rw (find_with, e) (rw g refl)
      ]

  global_find :
      config_find sys cf (codes "parallel")
      ≡ (some (or_value (find_variable cf.variables (codes "parallel")) (integer (pos 1))), cf)
  unfolding config_find find_at
  global_find = global_at (find_at sys 2)

  own_find :
      (test : Bytes)
      → config_find sys cf (regressname test (codes "parallel")) ≡ (
        some (
            or_value
              (find_variable cf.variables (regressname test (codes "parallel")))
              (or_value (find_variable cf.variables (codes "parallel")) (integer (pos 1)))),
        cf,
      )
  unfolding config_find find_at or_value
  own_find test =
      elim (Option-cases (find_variable cf.variables (regressname test (codes "parallel")))) [
        | inr (val, e) ↦ own_at (find_at sys 2) test ∙ rw e refl
        | inl e ↦ own_at (find_at sys 2) test ∙ rw e (global_at (find_at sys 1))
      ]

-- The answer for what the two searches give.
answer : Option VariableValue → Option VariableValue → Bool
unfolding flag
answer all own = let a = flag all true in if a then flag own a else false

is_parallel_by :
    (sys : System) (cf : Config) (test : Bytes) (all own : Option ℤ)
    → config_find sys cf (codes "parallel") ≡ (some (or_value (as_value all) (integer (pos 1))), cf)
    → config_find sys cf (regressname test (codes "parallel"))
      ≡ (some (or_value (as_value own) (or_value (as_value all) (integer (pos 1)))), cf)
    → is_parallel sys cf test ≡ (some (answer (as_value all) (as_value own)), cf)
unfolding is_parallel answer flag or_value integer_value is_nonzero
is_parallel_by sys cf test none none e f = rw (is_parallel, e) (rw e (rw f refl))
is_parallel_by sys cf test none (some w) e f = rw (is_parallel, e) (rw e (rw f refl))
is_parallel_by sys cf test (some v) none e f = elim (Bool-cases (eqb_ℤ v (pos 0))) [
  | inl z ↦ rw (is_parallel, e, z) (rw e refl)
  | inr z ↦ rw (is_parallel, e, z) (rw e (rw (f, z) refl))
]
is_parallel_by sys cf test (some v) (some w) e f = elim (Bool-cases (eqb_ℤ v (pos 0))) [
  | inl z ↦ rw (is_parallel, e, z) (rw e refl)
  | inr z ↦ rw (is_parallel, e, z) (rw e (rw f refl))
]

runs_parallel_by :
    (cf : Config) (test : Bytes) (all own : Option ℤ)
    → find_variable cf.variables (codes "parallel") ≡ as_value all
    → find_variable cf.variables (regressname test (codes "parallel")) ≡ as_value own
    → answer (as_value all) (as_value own) ≡ runs_parallel cf test
unfolding runs_parallel answer
runs_parallel_by cf test all own e f = rw (e, f) refl

-- For the grammar of robsd-regress, and where the variable `parallel` and that of the test hold
-- integers if they are there: the answer is yes if neither of them is 0, and the configuration stays
-- as it is.
pub is_parallel_lem :
    (sys : System) (cf : Config) (common : List Grammar) (test : Bytes)
    → cf.grammar ≡ robsd_regress_grammar ++ common
    → HoldsInteger (find_variable cf.variables (codes "parallel"))
    → HoldsInteger (find_variable cf.variables (regressname test (codes "parallel")))
    → is_parallel sys cf test ≡ (some (runs_parallel cf test), cf)
is_parallel_lem sys cf common test g (all, e) (own, f) =
    is_parallel_by sys cf test all own (global_find sys cf common g ∙ rw e refl)
      (own_find sys cf common g test ∙ rw (f, e) refl)
    ∙ ap (λ b. (some b, cf)) (runs_parallel_by cf test all own e f)
