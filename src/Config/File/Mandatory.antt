-- ===== src/Config/File/Mandatory.antt =====
-- The mandatory variables of a configuration that was parsed.
use robsd.Base.{
  Bool, true, false, List, [], ◌∷◌, Result, done, failed, out_of_fuel, All, ◌≡◌, ◌⊎◌, refl, sym, ap,
  ◌∙◌, inl, inr, arith, Bool-cases,
}
use mathlib.Core.Path.{subst}
use robsd.Mode.{RobsdMode, plain_robsd, robsd_cross, robsd_ports, robsd_regress, canvas}
use robsd.Lexer.{Lexer}
use robsd.Config.Lex.{Overflow}
use robsd.Config.Grammar.{Grammar}
use robsd.Config.State.{System, Config, present_in, config_present}
use robsd.Config.File.{
  missing, config_validate, inner_result, config_parse_inner, after_parse_in, after_parse, parsed,
  parse_from, config_parse,
}
use robsd.Config.File.Ends.{parse-Keeps}

-- The variable is not mandatory, or it is there.
abbrev pub HasMandatory : Config → Grammar → Type 0
HasMandatory cf gr = (gr.gr_flags.req ≡ false) ⊎ (config_present cf gr.gr_kw ≡ true)

missing-HasMandatory :
    (grs : List Grammar) (cf : Config) → missing grs cf ≡ false → All (HasMandatory cf) grs
unfolding missing
missing-HasMandatory [] cf h = tt
missing-HasMandatory (gr ∷ grs) cf h = (
  elim (Bool-cases gr.gr_flags.req) [
    | inr e ↦ inl e
    | inl e ↦ elim (Bool-cases (config_present cf gr.gr_kw)) [
      | inl f ↦ inr f
      | inr f ↦ absurd (ground arith)
    ]
  ],
  missing-HasMandatory grs cf (ground arith),
)

-- Validation has found no variable missing.
record Validated (cf : Config) : Type 0 where
  before : Config
  valid : missing before.grammar before ≡ false
  same_grammar : cf.grammar ≡ before.grammar
  same_variables : cf.variables ≡ before.variables

after_parse-Validated :
    (m : RobsdMode) (cf : Config) → missing cf.grammar cf ≡ false → Validated (after_parse_in m cf)
unfolding after_parse_in
after_parse-Validated plain_robsd cf h = record {
  before = cf;
  valid = h;
  same_grammar = refl;
  same_variables = refl;
}
after_parse-Validated robsd_cross cf h = record {
  before = cf;
  valid = h;
  same_grammar = refl;
  same_variables = refl;
}
after_parse-Validated robsd_ports cf h = record {
  before = cf;
  valid = h;
  same_grammar = refl;
  same_variables = refl;
}
after_parse-Validated robsd_regress cf h = record {
  before = cf;
  valid = h;
  same_grammar = refl;
  same_variables = refl;
}
after_parse-Validated canvas cf h = record {
  before = cf;
  valid = h;
  same_grammar = refl;
  same_variables = refl;
}

inner_result-valid :
    (r : Result Bool × Config × Lexer) (cf : Config)
    → inner_result r ≡ (done false, cf)
    → missing cf.grammar cf ≡ false
unfolding inner_result config_validate
inner_result-valid (done error, cf', lx) cf h =
    let same : cf' ≡ cf = ap (λ p. p.1) h in
    elim (Bool-cases (missing cf'.grammar cf')) [
      | inr e ↦ rw (← same) e
      | inl e ↦ absurd (ground arith)
    ]
inner_result-valid (failed, cf', lx) cf h = absurd (cc)
inner_result-valid (out_of_fuel, cf', lx) cf h = absurd (cc)

parsed-Validated :
    (r : Result Bool × Config) (cf : Config)
    → ((cf1 : Config) → r ≡ (done false, cf1) → missing cf1.grammar cf1 ≡ false)
    → parsed r ≡ (done false, cf)
    → Validated cf
unfolding parsed after_parse
parsed-Validated (done false, cf1) cf h e =
    let q : after_parse cf1 ≡ cf = ap (λ p. p.1) e in
    rw (← q) (after_parse-Validated cf1.mode cf1 (h cf1 refl))
parsed-Validated (done true, cf1) cf h e = absurd (cc)
parsed-Validated (failed, cf1) cf h e = absurd (cc)
parsed-Validated (out_of_fuel, cf1) cf h e = absurd (cc)

parse_from-Validated :
    (o : Overflow) (sys : System) (cf cf' : Config) (r : Result Lexer)
    → parse_from o sys cf r ≡ (done false, cf')
    → Validated cf'
unfolding parse_from config_parse_inner
parse_from-Validated o sys cf cf' (done lx) h =
    parsed-Validated (config_parse_inner o sys cf lx) cf' (inner_result-valid _) h
parse_from-Validated o sys cf cf' failed h = absurd (cc)
parse_from-Validated o sys cf cf' out_of_fuel h = absurd (cc)

present-same :
    (cf cf' : Config)
    → cf.variables ≡ cf'.variables
    → (gr : Grammar) → HasMandatory cf' gr
    → HasMandatory cf gr
unfolding config_present
present-same cf cf' e gr (inl h) = inl h
present-same cf cf' e gr (inr h) = inr (ap (λ vas. present_in vas gr.gr_kw) e ∙ h)

All-same :
    (cf cf' : Config)
    → cf.variables ≡ cf'.variables
    → (grs : List Grammar) → All (HasMandatory cf') grs
    → All (HasMandatory cf) grs
All-same cf cf' e [] h = tt
All-same cf cf' e (gr ∷ grs) (h, hs) = (present-same cf cf' e gr h, All-same cf cf' e grs hs)

-- When `config_parse` succeeds, the configuration has each variable that its grammar makes
-- mandatory.
pub config_parse-HasMandatory :
    (o : Overflow) (sys : System) (cf cf' : Config)
    → config_parse o sys cf ≡ (done false, cf')
    → All (HasMandatory cf') cf.grammar
unfolding config_parse
config_parse-HasMandatory o sys cf cf' h =
    let v : Validated cf' = parse_from-Validated o sys cf cf' _ h in
    let same : cf'.grammar ≡ cf.grammar =
      ap (λ p. p.1.grammar) (sym h) ∙ (parse-Keeps o sys cf).1.extends.same_grammar in
    let grs : All (HasMandatory cf') v.before.grammar =
      All-same cf' v.before v.same_variables v.before.grammar
        (missing-HasMandatory v.before.grammar v.before v.valid) in
    subst (λ g. All (HasMandatory cf') g) (sym v.same_grammar ∙ same) grs
