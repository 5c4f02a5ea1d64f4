-- ===== src/Config/Regress/Env.antt =====
-- The option `env` of a test, `config_parse_regress_option_env`: its pointer to the new variable is
-- still that variable when it is used.
use mathlib.Core.Path.{subst}
use robsd.Base.{
  Bool, true, false, not, ◌&&◌, ◌||◌, Bool-cases, append-nil, append_assoc, List, [], ◌∷◌, ◌++◌,
  some, Bytes, codes, length, Result, done, failed, out_of_fuel, All, ◌≡◌, refl, sym, ap, ◌∙◌,
  arith, inl, inr, Result-cases,
}
use robsd.Lexer.{Lexer}
use robsd.Config.Value.{VariableValue, string, list, variable_value_concat, concat_loop}
use robsd.Config.Grammar.{Grammar, GrammarDefault, fun, default_rdomain}
use robsd.Config.Grammar.Tables.{robsd_regress_grammar, common_grammar}
use robsd.Config.State.{System, Config, Variable, variable, config_append, config_interpolate_early}
use robsd.Config.State.Early.{IsPure, interpolate_early-variables}
use robsd.Config.Parse.{append_value}
use robsd.Config.Regress.{regressname, set_at, config_parse_regress_option_env, default_env}

is_rdomain : GrammarDefault → Bool
is_rdomain (fun default_rdomain) = true
is_rdomain _ = false

is_pure : Grammar → Bool
unfolding is_rdomain
is_pure gr = not gr.gr_flags.early || (not gr.gr_flags.is_fun || is_rdomain gr.gr_default)

are_pure : List Grammar → Bool
unfolding is_pure
are_pure [] = true
are_pure (gr ∷ grs) = is_pure gr && are_pure grs

is_rdomain_eq : (d : GrammarDefault) → is_rdomain d ≡ true → d ≡ fun default_rdomain
unfolding is_rdomain
is_rdomain_eq (fun default_rdomain) h = refl
is_rdomain_eq d h = absurd (ground arith)

is_pure-IsPure : (gr : Grammar) → is_pure gr ≡ true → IsPure gr
unfolding is_pure
is_pure-IsPure gr h = elim (Bool-cases gr.gr_flags.early) [
  | inr e ↦ inl e
  | inl e ↦ elim (Bool-cases gr.gr_flags.is_fun) [
    | inr f ↦ inr (inl f)
    | inl f ↦ inr (inr (is_rdomain_eq gr.gr_default (ground arith)))
  ]
]

all-IsPure : (grs : List Grammar) → are_pure grs ≡ true → All IsPure grs
unfolding are_pure
all-IsPure [] h = tt
all-IsPure (gr ∷ grs) h = (is_pure-IsPure gr (ground arith), all-IsPure grs (ground arith))

-- The grammar of robsd-regress is such a grammar.
regress-IsPure :
    (machine arch : Bytes) → All IsPure (robsd_regress_grammar ++ common_grammar machine arch)
unfolding are_pure
regress-IsPure machine arch = all-IsPure (robsd_regress_grammar ++ common_grammar machine arch) refl

concat_loop_lem : (xs ys : List Bytes) → concat_loop xs ys ≡ xs ++ ys
unfolding concat_loop
concat_loop_lem xs [] = sym (append-nil xs)
concat_loop_lem xs (y ∷ ys) = concat_loop_lem (xs ++ y ∷ []) ys ∙ append_assoc xs (y ∷ []) ys

default_concat :
    (strs : List Bytes)
    → variable_value_concat default_env (list strs) ≡ some (list (codes "${regress-env}" ∷ strs))
unfolding variable_value_concat
default_concat strs = ap (λ l. some (list l)) (concat_loop_lem (codes "${regress-env}" ∷ []) strs)

set_at-last :
    (vas : List Variable) (name : Bytes) (old new : VariableValue)
    → set_at (length vas) new (vas ++ variable name old ∷ []) ≡ vas ++ variable name new ∷ []
unfolding set_at
set_at-last [] name old new = refl
set_at-last (va ∷ vas) name old new = ap (λ l. va ∷ l) (set_at-last vas name old new)

-- What the variable holds, for the list that was parsed and what early interpolation makes of it.
abbrev pub env_value : List Bytes → Result Bytes → VariableValue
env_value strs (done str) = string str
env_value strs failed = list (codes "${regress-env}" ∷ strs)
env_value strs out_of_fuel = list (codes "${regress-env}" ∷ strs)

abbrev pub early_result : System → Bytes → Config → List Bytes → Result Bytes × Config
early_result sys path cf strs =
    config_interpolate_early sys
      (config_append cf (regressname path (codes "env")) (list (codes "${regress-env}" ∷ strs)))
      (codes "${" ++ regressname path (codes "env") ++ codes "}")

-- With the grammar of robsd-regress, the option `env` of a test adds one variable, named after the
-- test, and leaves the others as they are. Its value is the text that early interpolation makes of it,
-- or the list that was parsed where interpolation fails.
pub option_env-variables :
    (sys : System) (path : Bytes) (cf : Config) (lx : Lexer) (strs : List Bytes)
    → cf.grammar ≡ robsd_regress_grammar ++ common_grammar sys.machine sys.machine_arch
    → (config_parse_regress_option_env sys path cf
        (done (append_value (list strs)), lx)).1.variables
      ≡ (cf.variables
          ++ variable
              (regressname path (codes "env"))
              (env_value strs (early_result sys path cf strs).0)
            ∷ [])
unfolding config_append config_parse_regress_option_env config_interpolate_early regressname
option_env-variables sys path cf lx strs g =
    let name = regressname path (codes "env") in
    let old = list (codes "${regress-env}" ∷ strs) in
    let e = early_result sys path cf strs in
    let same : e.1.variables ≡ cf.variables ++ variable name old ∷ [] =
      interpolate_early-variables sys (config_append cf name old) (codes "${" ++ name ++ codes "}")
        (subst (λ grs. All IsPure grs) (sym g) (regress-IsPure sys.machine sys.machine_arch)) in
    rw (config_parse_regress_option_env, default_concat strs)
      (elim (Result-cases e.0) [
        | inl (str, f) ↦ rw f (
            ap (set_at (length cf.variables) (string str)) same
            ∙ set_at-last cf.variables name old (string str))
        | inr (inl f) ↦ rw f same
        | inr (inr f) ↦ rw f same
      ])
