-- ===== src/Config/Regress/Ends.antt =====
-- The parsers of robsd-regress return, and keep what no operation changes.
use robsd.Base.{
  ℕ, zero, suc, ◌<◌, true, [], ◌∷◌, ◌++◌, Bytes, codes, length, Result, done, failed, out_of_fuel,
  ◌≡◌, ◌≢◌, refl, inl, inr, arith, Option-cases, false, str_eq,
}
use robsd.Interpolate.{interpolate_str, interpolate_buffer, max_depth}
use robsd.Interpolate.Fuel.{interpolate-ne-out_of_fuel}
use robsd.Lexer.{Lexer, lexer_expect}
use robsd.Lexer.Open.{IsOpen, Consumes, expect-Consumes, Consumes-trans}
use robsd.Config.Value.{VariableValue, string, list, variable_value_concat}
use robsd.Config.Token.{token_string}
use robsd.Config.Lex.{Overflow}
use robsd.Config.State.{
  System, Config, config_append, config_interpolate_lookup, config_interpolate_early, concat_to,
}
use robsd.Config.State.Keeps.{Keeps, Keeps-refl, Keeps-trans, append-Keeps, concat_to-Keeps}
use robsd.Config.State.Stuck.{early-Keeps}
use robsd.Config.Regress.InPlace.{set_at-Keeps}
use robsd.Config.Parse.{
  append_value, config_error, config_nop, config_fatal, FromTokens, Outcome, config_parse_list,
  config_parse_timeout,
}
use robsd.Config.Parse.Ends.{
  Goes, GoesOn, GoesOn-Keeps, Goes-after, Moves-after, expect-Moves, NoEof, first_of-Consumes,
  list-Goes, timeout-Goes,
}
use robsd.Config.Regress.{
  regressname, concatenated, interpolated_env, config_parse_regress_option_env, default_env,
  timeout_option, append_flag, RegressOption, option_env, option_no_parallel, option_obj,
  option_packages, option_quiet, option_root, option_targets, option_timeout, options,
  regress_option, go_on, regress_loop, config_parse_regress, config_parse_regress_env,
}

pub concatenated-GoesOn :
    (name : Bytes) (cf : Config) (lx : Lexer) (r : FromTokens)
    → Goes lx r
    → GoesOn cf lx (concatenated name cf r)
unfolding concatenated
concatenated-GoesOn name cf lx (done (append_value val), lx') g =
    elim (Option-cases (concat_to cf name val)) [
      | inl e ↦ rw (concatenated, e) (Keeps-refl cf, tt)
      | inr (cf', e) ↦ rw (concatenated, e) (concat_to-Keeps cf cf' name val e, g)
    ]
concatenated-GoesOn name cf lx (done config_error, lx') g = (Keeps-refl cf, g)
concatenated-GoesOn name cf lx (done config_nop, lx') g = (Keeps-refl cf, inl g)
concatenated-GoesOn name cf lx (done config_fatal, lx') g = (Keeps-refl cf, g)
concatenated-GoesOn name cf lx (failed, lx') g = (Keeps-refl cf, g)
concatenated-GoesOn name cf lx (out_of_fuel, lx') g = (Keeps-refl cf, g)

interpolated_env-GoesOn :
    (cf : Config) (name : Bytes) (defval : VariableValue) (lx lx' : Lexer)
    (r : Result Bytes × Config)
    → str_eq name (codes "robsddir") ≡ false
    → Keeps (config_append cf name defval) r.1
    → r.0 ≢ out_of_fuel
    → Consumes lx lx'
    → GoesOn cf lx (interpolated_env (length cf.variables) lx' r)
unfolding interpolated_env
interpolated_env-GoesOn cf name defval lx lx' (done str, cf') other k ne c =
    (set_at-Keeps cf cf' name defval (string str) other k, c)
interpolated_env-GoesOn cf name defval lx lx' (failed, cf') other k ne c =
    (Keeps-trans cf _ cf' (append-Keeps cf name defval) k, inl c)
interpolated_env-GoesOn cf name defval lx lx' (out_of_fuel, cf') other k ne c = absurd (ne refl)

env-ne-robsddir :
    (path : Bytes) → str_eq (regressname path (codes "env")) (codes "robsddir") ≡ false
unfolding regressname str_eq
env-ne-robsddir path = refl

early-ne-out_of_fuel :
    (sys : System) (cf : Config) (template : Bytes)
    → (config_interpolate_early sys cf template).0 ≢ out_of_fuel
unfolding config_interpolate_early interpolate_str interpolate_buffer
early-ne-out_of_fuel sys cf template =
    interpolate-ne-out_of_fuel (config_interpolate_lookup sys) true max_depth [] template
      (record cf { early = true })

option_env-GoesOn :
    (sys : System) (path : Bytes) (cf : Config) (lx : Lexer) (r : FromTokens)
    → Goes lx r
    → GoesOn cf lx (config_parse_regress_option_env sys path cf r)
unfolding config_parse_regress_option_env
option_env-GoesOn sys path cf lx (done (append_value val), lx') g =
    elim (Option-cases (variable_value_concat default_env val)) [
      | inl e ↦ rw (config_parse_regress_option_env, e) (Keeps-refl cf, tt)
      | inr (defval, e) ↦
          let name = regressname path (codes "env") in
          let appended = config_append cf name defval in
          let template = codes "${" ++ name ++ codes "}" in
          rw (config_parse_regress_option_env, e)
            (interpolated_env-GoesOn cf name defval lx lx' _ (env-ne-robsddir path)
              (early-Keeps sys appended template) (early-ne-out_of_fuel sys appended template) g)
    ]
option_env-GoesOn sys path cf lx (done config_error, lx') g = (Keeps-refl cf, g)
option_env-GoesOn sys path cf lx (done config_nop, lx') g = (Keeps-refl cf, inl g)
option_env-GoesOn sys path cf lx (done config_fatal, lx') g = (Keeps-refl cf, g)
option_env-GoesOn sys path cf lx (failed, lx') g = (Keeps-refl cf, g)
option_env-GoesOn sys path cf lx (out_of_fuel, lx') g = (Keeps-refl cf, g)

timeout_option-GoesOn :
    (path : Bytes) (cf : Config) (lx : Lexer) (r : FromTokens)
    → Goes lx r
    → GoesOn cf lx (timeout_option path cf r)
unfolding timeout_option
timeout_option-GoesOn path cf lx (done (append_value val), lx') g =
    (append-Keeps cf (regressname path (codes "timeout")) val, g)
timeout_option-GoesOn path cf lx (done config_error, lx') g = (Keeps-refl cf, g)
timeout_option-GoesOn path cf lx (done config_nop, lx') g = (Keeps-refl cf, inl g)
timeout_option-GoesOn path cf lx (done config_fatal, lx') g = (Keeps-refl cf, g)
timeout_option-GoesOn path cf lx (failed, lx') g = (Keeps-refl cf, g)
timeout_option-GoesOn path cf lx (out_of_fuel, lx') g = (Keeps-refl cf, g)

append_flag-GoesOn :
    (path suffix : Bytes) (n : ℕ) (cf : Config) (lx lx' : Lexer)
    → Consumes lx lx'
    → GoesOn cf lx (append_flag path suffix n cf lx')
unfolding append_flag
append_flag-GoesOn path suffix n cf lx lx' c = (append-Keeps cf (regressname path suffix) _, c)

module _ (o : Overflow) (sys : System) (path : Bytes) where
  option-GoesOn :
      (option : RegressOption) (cf : Config) (lx lx' : Lexer)
      → Consumes lx lx'
      → GoesOn cf lx (regress_option o sys path option cf lx')
  unfolding regress_option
  option-GoesOn option_env cf lx lx' c =
      option_env-GoesOn sys path cf lx (config_parse_list lx')
        (Goes-after (config_parse_list lx') c (list-Goes lx' c.is_open))
  option-GoesOn option_no_parallel cf lx lx' c = append_flag-GoesOn path _ 0 cf lx lx' c
  option-GoesOn option_obj cf lx lx' c =
      concatenated-GoesOn (codes "regress-obj") cf lx (config_parse_list lx')
        (Goes-after (config_parse_list lx') c (list-Goes lx' c.is_open))
  option-GoesOn option_packages cf lx lx' c =
      concatenated-GoesOn (codes "regress-packages") cf lx (config_parse_list lx')
        (Goes-after (config_parse_list lx') c (list-Goes lx' c.is_open))
  option-GoesOn option_quiet cf lx lx' c = append_flag-GoesOn path _ 1 cf lx lx' c
  option-GoesOn option_root cf lx lx' c = append_flag-GoesOn path _ 1 cf lx lx' c
  option-GoesOn option_targets cf lx lx' c =
      concatenated-GoesOn (regressname path (codes "targets")) cf lx (config_parse_list lx')
        (Goes-after (config_parse_list lx') c (list-Goes lx' c.is_open))
  option-GoesOn option_timeout cf lx lx' c =
      timeout_option-GoesOn path cf lx (config_parse_timeout o lx')
        (Goes-after (config_parse_timeout o lx') c (timeout-Goes o lx' c.is_open))

go_on-GoesOn :
    (cf : Config) (lx lx' : Lexer) (next : Config → Lexer → Outcome) (r : Outcome)
    → Consumes lx lx'
    → ((cf' : Config) (lx'' : Lexer) → Consumes lx' lx'' → GoesOn cf' lx (next cf' lx''))
    → GoesOn cf lx' r
    → GoesOn cf lx (go_on next r)
unfolding go_on
go_on-GoesOn cf lx lx' next (done config_nop, cf', lx'') c hn (k, g) =
    GoesOn-Keeps cf cf' lx (next cf' lx'') k (hn cf' lx'' g)
go_on-GoesOn cf lx lx' next (done (append_value val), cf', lx'') c hn (k, g) =
    (k, Consumes-trans c g)
go_on-GoesOn cf lx lx' next (done config_error, cf', lx'') c hn (k, g) = (k, Moves-after c g)
go_on-GoesOn cf lx lx' next (done config_fatal, cf', lx'') c hn (k, g) = (k, Moves-after c g)
go_on-GoesOn cf lx lx' next (failed, cf', lx'') c hn (k, g) = (k, tt)
go_on-GoesOn cf lx lx' next (out_of_fuel, cf', lx'') c hn (k, g) = absurd g

options-NoEof : NoEof options
options-NoEof = (
  omega arith,
  (
    omega arith,
    (omega arith, (omega arith, (omega arith, (omega arith, (omega arith, (omega arith, tt)))))),
  ),
)

module _ (o : Overflow) (sys : System) (path : Bytes) where
  regress_loop-GoesOn :
      (fuel : ℕ) (cf : Config) (lx lx' : Lexer)
      → length lx'.lx_ahead < fuel
      → Consumes lx lx'
      → GoesOn cf lx (regress_loop o sys path fuel cf lx')
  unfolding regress_loop
  regress_loop-GoesOn zero cf lx lx' h c = absurd (omega arith)
  regress_loop-GoesOn (suc fuel) cf lx lx' h c =
      elim (first_of-Consumes options lx' options-NoEof c.is_open) [
        | inr (e, same) ↦
            rw (regress_loop, e)
              (rw same (
                concatenated-GoesOn (codes "regress") cf lx
                  (done (append_value (list (path ∷ []))), lx') c))
        | inl ((option, e), d) ↦
            rw (regress_loop, e)
              (go_on-GoesOn cf lx lx' (regress_loop o sys path fuel) _ c
                (λ cf' lx'' m.
                  regress_loop-GoesOn fuel cf' lx lx'' (omega (arith, m.shorter))
                    (Consumes-trans c m))
                (option-GoesOn o sys path option cf lx' _ d))
      ]

pub regress-GoesOn :
    (o : Overflow) (sys : System) (cf : Config) (lx : Lexer)
    → IsOpen lx
    → GoesOn cf lx (config_parse_regress o sys cf lx)
unfolding config_parse_regress
regress-GoesOn o sys cf lx h = elim (Option-cases (lexer_expect lx token_string).0) [
  | inl e ↦ rw (config_parse_regress, e) (Keeps-refl cf, expect-Moves lx token_string h)
  | inr (t, e) ↦
      let lx' = (lexer_expect lx token_string).1 in
      rw (config_parse_regress, e)
        (regress_loop-GoesOn o sys t.tk_str (suc (length lx'.lx_ahead)) cf lx lx' (omega arith)
          (expect-Consumes lx token_string t h (omega arith) e))
]

pub regress_env-GoesOn :
    (cf : Config) (lx : Lexer) → IsOpen lx → GoesOn cf lx (config_parse_regress_env cf lx)
unfolding config_parse_regress_env
regress_env-GoesOn cf lx h =
    concatenated-GoesOn (codes "regress-env") cf lx (config_parse_list lx) (list-Goes lx h)
