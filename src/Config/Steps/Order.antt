-- ===== src/Config/Steps/Order.antt =====
-- The order of the steps of robsd-regress, `config_robsd_regress_get_steps`.
use robsd.Base.{
  Bool, true, false, List, [], ◌∷◌, ◌++◌, none, some, Bytes, codes, map, ◌≡◌, refl, sym, ap, ◌∙◌,
  arith, append_assoc, append-nil, if◌then◌else◌,
}
use robsd.Config.Value.{VariableValue, list}
use robsd.Config.Grammar.{Grammar}
use robsd.Config.Grammar.Tables.{StepEntry, robsd_regress_grammar}
use robsd.Config.State.{System, Config, ConfigStep, find_variable, find_with, find_at, config_find}
use robsd.Config.Regress.{regressname}
use robsd.Config.Steps.Parallel.{runs_parallel, HoldsInteger, is_parallel_lem}
use robsd.Config.Steps.{
  script_step, config_steps_add_script, add_entries, before_tests, is_parallel, regress_script,
  parallel_step, tests_loop, add_tests, config_robsd_regress_get_steps,
}

-- The name of a step and its script, and the entry for them in a table.
abbrev pub Script : Type 0
Script = Bytes × Bytes

abbrev pub entry_of : Script → StepEntry
entry_of (name, script) = (some name, script)

abbrev pub step_of : Script → ConfigStep
step_of (name, script) = script_step script name

-- The tests for which the answer is `b`, in order.
unfoldable pub those : (Bytes → Bool) → Bool → List Bytes → List Bytes
those decide b [] = []
those decide true (test ∷ tests) =
    if decide test then test ∷ those decide true tests else those decide true tests
those decide false (test ∷ tests) =
    if decide test then those decide false tests else test ∷ those decide false tests

add_entries_lem :
    (entries : List Script) (steps : List ConfigStep)
    → add_entries (map entry_of entries) steps ≡ some (steps ++ map step_of entries)
unfolding add_entries config_steps_add_script
add_entries_lem [] steps = ap some (sym (append-nil steps))
add_entries_lem ((name, script) ∷ entries) steps =
    add_entries_lem entries (steps ++ script_step script name ∷ [])
    ∙ ap some (append_assoc steps (script_step script name ∷ []) (map step_of entries))

before_tests_lem :
    (before : List Script) (steps : List ConfigStep) (script : Bytes) (behind : List StepEntry)
    → before_tests (map entry_of before ++ (none, script) ∷ behind) steps
      ≡ (steps ++ map step_of before, behind)
unfolding before_tests config_steps_add_script
before_tests_lem [] steps script behind = ap (λ s. (s, behind)) (sym (append-nil steps))
before_tests_lem ((name, path) ∷ before) steps script behind =
    before_tests_lem before (steps ++ script_step path name ∷ []) script behind
    ∙ ap (λ s. (s, behind)) (append_assoc steps (script_step path name ∷ []) (map step_of before))

add_tests_lem :
    (tests : List Bytes) (steps : List ConfigStep)
    → add_tests tests steps ≡ steps ++ map (script_step regress_script) tests
unfolding add_tests config_steps_add_script
add_tests_lem [] steps = sym (append-nil steps)
add_tests_lem (test ∷ tests) steps =
    add_tests_lem tests (steps ++ script_step regress_script test ∷ [])
    ∙ append_assoc steps (script_step regress_script test ∷ []) _

module _ (sys : System) (cf : Config) (decide : Bytes → Bool)
    (answers : (test : Bytes) → is_parallel sys cf test ≡ (some (decide test), cf)) where
  tests_loop_lem :
      (tests : List Bytes) (steps : List ConfigStep) (others : List Bytes)
      → tests_loop sys tests steps others cf ≡ (
        some (
          steps ++ map parallel_step (those decide true tests),
          others ++ those decide false tests,
        ),
        cf,
      )
  unfolding tests_loop those
  tests_loop_lem [] steps others = rw (append-nil steps, append-nil others) refl
  tests_loop_lem (test ∷ tests) steps others = ground (
    arith,
    answers test,
    tests_loop_lem tests (steps ++ parallel_step test ∷ []) others,
    tests_loop_lem tests steps (others ++ test ∷ []),
    append_assoc steps (parallel_step test ∷ []) (map parallel_step (those decide true tests)),
    append_assoc others (test ∷ []) (those decide false tests),
  )

find_there :
    (sys : System) (cf : Config) (name : Bytes) (val : VariableValue)
    → find_variable cf.variables name ≡ some val
    → config_find sys cf name ≡ (some val, cf)
unfolding config_find find_at find_with
find_there sys cf name val e = rw (find_with, e) refl

-- For the grammar of robsd-regress, a table of steps with the entry for the tests between `before`
-- and `behind`, the list of tests `regress`, and integers as the values of `parallel` and
-- `regress-*-parallel` where they are there: the steps are those before, the tests that run in
-- parallel and are marked so, the other tests, and the steps behind, the tests in their order each
-- time. The configuration stays as it is.
pub regress_get_steps_lem :
    (sys : System) (cf : Config) (common : List Grammar) (before behind : List Script)
    (script : Bytes) (regress : List Bytes)
    → cf.grammar ≡ robsd_regress_grammar ++ common
    → cf.steps ≡ map entry_of before ++ (none, script) ∷ map entry_of behind
    → find_variable cf.variables (codes "regress") ≡ some (list regress)
    → HoldsInteger (find_variable cf.variables (codes "parallel"))
    → ((test : Bytes)
        → HoldsInteger (find_variable cf.variables (regressname test (codes "parallel"))))
    → config_robsd_regress_get_steps sys cf ≡ (
      some (
          map step_of before
          ++ map parallel_step (those (runs_parallel cf) true regress)
          ++ map (script_step regress_script) (those (runs_parallel cf) false regress)
          ++ map step_of behind),
      cf,
    )
unfolding config_robsd_regress_get_steps
regress_get_steps_lem sys cf common before behind script regress g s r all own =
    let found = find_there sys cf (codes "regress") (list regress) r in
    let loop =
      tests_loop_lem sys cf (runs_parallel cf)
        (λ test. is_parallel_lem sys cf common test g all (own test)) regress (map step_of before)
        [] in
    let table : before_tests cf.steps [] ≡ (map step_of before, map entry_of behind) =
      ap (λ st. before_tests st []) s ∙ before_tests_lem before [] script (map entry_of behind) in
    let steps = map step_of before ++ map parallel_step (those (runs_parallel cf) true regress) in
    let others = those (runs_parallel cf) false regress in
    let all_steps =
      add_entries_lem behind (add_tests others steps)
      ∙ ap (λ sts. some (sts ++ map step_of behind)) (add_tests_lem others steps) in
    rw (config_robsd_regress_get_steps, found)
      (rw found (rw table (rw loop (rw (table, found) (rw loop (rw all_steps refl))))))
