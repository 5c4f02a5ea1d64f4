-- ===== src/Config/Grammar/Parallel.antt =====
-- The entry of the grammar of robsd-regress for the variable that says whether a test may run in
-- parallel.
use robsd.Base.{
  ℕ, true, false, List, ◌++◌, none, some, Bytes, codes, str_eq, All, ◌≡◌, ◌≢◌, refl, ◌∙◌, arith,
  Bool-cases, inl, inr, take, drop, pos,
}
use robsd.Config.Value.{integer_type}
use robsd.Config.Grammar.{
  Grammar, fun, i32, parse_boolean, first_byte, fnmatch, grammar_equals,
  config_find_grammar_for_interpolation, default_parallel,
}
use robsd.Config.Grammar.Tables.{robsd_regress_grammar, entry, plain, pattern_by_fun}
use robsd.Config.Grammar.Match.{
  ends_in, ends_in-append, equals-ends_in, lookup-behind, fnmatch-star,
}

parallel_name : Bytes → Bytes
parallel_name test = codes "regress-" ++ test ++ codes "-parallel"

parallel-ends_in : (c : ℕ) (test : Bytes) → c ≢ b'l' → ends_in c (parallel_name test) ≡ false
unfolding parallel_name ends_in
parallel-ends_in c test ne =
    ends_in-append c (codes "regress-" ++ test) b'-' (codes "parallel") ∙ ground arith

abbrev pub parallel_entry : Grammar
parallel_entry =
    entry (codes "regress-*-parallel") integer_type none pattern_by_fun (fun default_parallel)

before_parallel : List Grammar
before_parallel = take 14 robsd_regress_grammar

differs :
    (c : ℕ) (gr : Grammar) (test : Bytes)
    → c ≢ b'*'
    → c ≢ b'l'
    → ends_in c gr.gr_kw ≡ true
    → grammar_equals gr (parallel_name test) ≡ false
differs c gr test star l h =
    equals-ends_in c gr (parallel_name test) star h (parallel-ends_in c test l)

other :
    (gr : Grammar) (test : Bytes)
    → gr.gr_flags.pat ≡ false
    → str_eq gr.gr_kw (parallel_name test) ≡ false
    → grammar_equals gr (parallel_name test) ≡ false
unfolding grammar_equals
other gr test pat h = rw (h, pat) refl

-- Each keyword before differs in its front or in its last byte.
not_equal :
    (test : Bytes) → All (λ gr. grammar_equals gr (parallel_name test) ≡ false) before_parallel
unfolding before_parallel parallel_name str_eq ends_in
not_equal test = (
  other _ test refl refl,
  (
    other _ test refl refl,
    (
      other _ test refl refl,
      (
        other _ test refl refl,
        (
          other _ test refl refl,
          (
            other _ test refl refl,
            (
              other _ test refl refl,
              (
                other _ test refl refl,
                (
                  other _ test refl refl,
                  (
                    differs b'v' _ test (omega arith) (omega arith) refl,
                    (
                      differs b'r' _ test (omega arith) (omega arith) refl,
                      (
                        differs b't' _ test (omega arith) (omega arith) refl,
                        (
                          differs b'v' _ test (omega arith) (omega arith) refl,
                          (differs b's' _ test (omega arith) (omega arith) refl, tt),
                        ),
                      ),
                    ),
                  ),
                ),
              ),
            ),
          ),
        ),
      ),
    ),
  ),
)

matches : (test : Bytes) → fnmatch parallel_entry.gr_kw (parallel_name test) ≡ true
unfolding parallel_name fnmatch first_byte
matches test = fnmatch-star (codes "-parallel") test (codes "-parallel") refl

equals_by_pattern :
    (gr : Grammar) (name : Bytes)
    → gr.gr_flags.pat ≡ true
    → fnmatch gr.gr_kw name ≡ true
    → grammar_equals gr name ≡ true
unfolding grammar_equals
equals_by_pattern gr name pat h = elim (Bool-cases (str_eq gr.gr_kw name)) [
  | inl e ↦ rw e refl
  | inr e ↦ rw (e, pat, h) refl
]

equals : (test : Bytes) → grammar_equals parallel_entry (parallel_name test) ≡ true
equals test = equals_by_pattern parallel_entry (parallel_name test) refl (matches test)

-- The name of the variable for a test, whatever the test is called, has this entry.
pub lookup-parallel :
    (test : Bytes) (common : List Grammar)
    → config_find_grammar_for_interpolation
        (robsd_regress_grammar ++ common)
        (codes "regress-" ++ test ++ codes "-parallel")
      ≡ some parallel_entry
unfolding before_parallel parallel_name config_find_grammar_for_interpolation
lookup-parallel test common =
    lookup-behind before_parallel (drop 14 robsd_regress_grammar ++ common) (parallel_name test)
      (not_equal test)
    ∙ rw (equals test) refl

abbrev pub global_entry : Grammar
global_entry = entry (codes "parallel") integer_type (some parse_boolean) plain (i32 (pos 1))

pub lookup-global :
    (common : List Grammar)
    → config_find_grammar_for_interpolation (robsd_regress_grammar ++ common) (codes "parallel")
      ≡ some global_entry
unfolding config_find_grammar_for_interpolation grammar_equals str_eq
lookup-global common = refl
