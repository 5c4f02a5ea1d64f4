-- ===== src/Config/State/Early.antt =====
-- Early interpolation leaves the variables alone, so that a pointer to one stays valid.
use mathlib.Core.Path.{subst}
use robsd.Base.{
  true, false, not, ◌&&◌, List, [], ◌∷◌, Option, some, Bytes, All, ◌≡◌, ◌⊎◌, refl, sym, ◌∙◌, arith,
  Bool-cases, Option-cases, inl, inr,
}
use robsd.Interpolate.State.{interpolate_str-R}
use robsd.Config.Value.{VariableValue}
use robsd.Config.Grammar.{
  Grammar, fun, default_rdomain, grammar_equals, config_find_grammar_for_interpolation,
}
use robsd.Config.State.Search.{found-same}
use robsd.Config.State.{
  System, Config, find_variable, config_default_rdomain, is_early_grammar, is_early_variable,
  lookup_with, default_by_fun, call_default, grammar_default, find_with, find_at, config_find,
  config_interpolate_lookup, config_interpolate_early,
}

-- The default of a variable that is interpolated early defines no variable.
abbrev pub IsPure : Grammar → Type 0
IsPure gr =
    (gr.gr_flags.early ≡ false)
    ⊎ ((gr.gr_flags.is_fun ≡ false) ⊎ (gr.gr_default ≡ fun default_rdomain))

-- Under early interpolation with such a grammar.
record IsEarly (cf : Config) : Type 0 where
  early : cf.early ≡ true
  pure : All IsPure cf.grammar

record Unmoved (cf cf' : Config) : Type 0 where
  same_early : cf'.early ≡ cf.early
  same_grammar : cf'.grammar ≡ cf.grammar
  same_variables : cf'.variables ≡ cf.variables

Unmoved-refl : (cf : Config) → Unmoved cf cf
Unmoved-refl cf = record { same_early = refl; same_grammar = refl; same_variables = refl }

-- The relation that the lookup keeps.
abbrev StaysEarly : Config → Config → Type 0
StaysEarly cf cf' = IsEarly cf → Unmoved cf cf'

still-IsEarly : (cf cf' : Config) → IsEarly cf → Unmoved cf cf' → IsEarly cf'
still-IsEarly cf cf' h u = record {
  early = u.same_early ∙ h.early;
  pure = subst (λ grs. All IsPure grs) (sym u.same_grammar) h.pure;
}

StaysEarly-trans : (a b c : Config) → StaysEarly a b → StaysEarly b c → StaysEarly a c
StaysEarly-trans a b c f g h =
    let u = f h in
    let v = g (still-IsEarly a b h u) in
    record {
      same_early = v.same_early ∙ u.same_early;
      same_grammar = v.same_grammar ∙ u.same_grammar;
      same_variables = v.same_variables ∙ u.same_variables;
    }

lookup-IsPure :
    (grs : List Grammar) (name : Bytes) (gr : Grammar)
    → All IsPure grs
    → config_find_grammar_for_interpolation grs name ≡ some gr
    → IsPure gr
unfolding config_find_grammar_for_interpolation
lookup-IsPure [] name gr h e = absurd (cc)
lookup-IsPure (g ∷ grs) name gr (h, hs) e = elim (Bool-cases (grammar_equals g name)) [
  | inl here ↦ let same : g ≡ gr = ground arith in subst IsPure same h
  | inr there ↦ lookup-IsPure grs name gr hs (ground arith)
]

module _ (sys : System) (find : Config → Bytes → Option VariableValue × Config) where
  default-Unmoved :
      (cf : Config) (name : Bytes) (gr : Grammar)
      → IsPure gr
      → gr.gr_flags.early ≡ true
      → Unmoved cf (grammar_default sys find cf name (some gr)).1
  unfolding grammar_default default_by_fun call_default config_default_rdomain
  default-Unmoved cf name gr h e = elim (Bool-cases gr.gr_flags.req) [
    | inl r ↦ rw r (Unmoved-refl cf)
    | inr r ↦ elim (Bool-cases gr.gr_flags.is_fun) [
      | inr f ↦ rw (r, f) (Unmoved-refl cf)
      | inl f ↦ elim h [
        | inl not_early ↦ absurd (cc)
        | inr (inl not_fun) ↦ absurd (cc)
        | inr (inr d) ↦
            rw (r, f)
              (rw d (record { same_early = refl; same_grammar = refl; same_variables = refl }))
      ]
    ]
  ]

  find_with-Unmoved :
      (cf : Config) (name : Bytes)
      → IsEarly cf
      → is_early_variable cf name ≡ true
      → Unmoved cf (find_with sys find cf name).1
  unfolding find_with is_early_variable is_early_grammar
  find_with-Unmoved cf name h e = elim (Option-cases (find_variable cf.variables name)) [
    | inr (val, f) ↦ rw (find_with, f) (Unmoved-refl cf)
    | inl f ↦ elim (Option-cases (config_find_grammar_for_interpolation cf.grammar name)) [
      | inl g ↦ absurd (ground arith)
      | inr (gr, g) ↦
          rw (find_with, f)
            (rw g (
              default-Unmoved cf name gr (lookup-IsPure cf.grammar name gr h.pure g)
                (ground arith)))
    ]
  ]

find-Unmoved :
    (sys : System) (cf : Config) (name : Bytes)
    → IsEarly cf
    → is_early_variable cf name ≡ true
    → Unmoved cf (config_find sys cf name).1
unfolding config_find find_at
find-Unmoved sys cf name h e = find_with-Unmoved sys (find_at sys 2) cf name h e

lookup-StaysEarly :
    (sys : System) (name : Bytes) (cf : Config)
    → StaysEarly cf (config_interpolate_lookup sys name cf).1
unfolding config_interpolate_lookup lookup_with
lookup-StaysEarly sys name cf h = elim (Bool-cases (cf.early && not (is_early_variable cf name))) [
  | inl e ↦ rw (lookup_with, e) (Unmoved-refl cf)
  | inr e ↦
      let early = h.early in
      rw (lookup_with, e)
        (rw (found-same sys (config_find sys) (config_find sys cf name))
          (find-Unmoved sys cf name h (ground arith)))
]

-- Early interpolation defines no variable, changes none and removes none, for a grammar in which the
-- variables that are interpolated early have such defaults.
pub interpolate_early-variables :
    (sys : System) (cf : Config) (template : Bytes)
    → All IsPure cf.grammar
    → (config_interpolate_early sys cf template).1.variables ≡ cf.variables
unfolding config_interpolate_early
interpolate_early-variables sys cf template h =
    let keeps =
      interpolate_str-R StaysEarly (λ s p. Unmoved-refl s) StaysEarly-trans
        (config_interpolate_lookup sys) true (lookup-StaysEarly sys) template
        (record cf { early = true }) in
    (keeps (record { early = refl; pure = h })).same_variables
