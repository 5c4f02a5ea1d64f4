-- ===== src/Config/Canvas/Ends.antt =====
-- The parsers of canvas return, and keep what no operation changes.
use robsd.Base.{
  ℕ, zero, suc, ◌<◌, Bool, true, false, List, [], ◌∷◌, Option, none, some, Bytes, codes, length,
  done, failed, out_of_fuel, inl, inr, arith, Bool-cases, Option-cases,
}
use robsd.Lexer.{Lexer, lexer_expect}
use robsd.Lexer.Open.{IsOpen, Consumes, expect-Consumes, Consumes-trans}
use robsd.Config.Value.{VariableValue, invalid}
use robsd.Config.Token.{token_string}
use robsd.Config.State.{System, Config, ConfigStep, config_append, config_find}
use robsd.Config.State.Keeps.{Keeps, Keeps-refl, Keeps-trans, append-Keeps}
use robsd.Config.State.Stuck.{find-Keeps}
use robsd.Config.Parse.{
  append_value, config_error, config_nop, config_fatal, FromTokens, Outcome, first_of,
  config_parse_list, config_parse_directory,
}
use robsd.Config.Parse.Ends.{
  Moves, Goes, GoesOn, GoesOn-after, GoesOn-Keeps, expect-Moves, error-Moves, NoEof,
  first_of-Consumes, list-Goes, directory-GoesOn,
}
use robsd.Config.Canvas.{
  directory_alias, config_parse_canvas_directory, command_with_env, is_empty_list, Command,
  with_env, parse_command, sentinel_before, add_sentinel, add_canvas_step, option_command,
  option_parallel, options, finish_step, go_on, step_loop, config_parse_canvas_step,
}

alias-GoesOn :
    (cf : Config) (lx : Lexer) (r : Outcome) → GoesOn cf lx r → GoesOn cf lx (directory_alias r)
unfolding directory_alias
alias-GoesOn cf lx (done (append_value val), cf', lx') (k, g) = (
  Keeps-trans cf cf' _ k (
      Keeps-trans cf' (config_append cf' (codes "canvas-dir") val) _
        (append-Keeps cf' (codes "canvas-dir") val)
        (append-Keeps (config_append cf' (codes "canvas-dir") val) (codes "robsddir") val)),
  g,
)
alias-GoesOn cf lx (done config_error, cf', lx') g = g
alias-GoesOn cf lx (done config_nop, cf', lx') g = g
alias-GoesOn cf lx (done config_fatal, cf', lx') g = g
alias-GoesOn cf lx (failed, cf', lx') g = g
alias-GoesOn cf lx (out_of_fuel, cf', lx') g = g

pub canvas_directory-GoesOn :
    (sys : System) (cf : Config) (lx : Lexer)
    → IsOpen lx
    → GoesOn cf lx (config_parse_canvas_directory sys cf lx)
unfolding config_parse_canvas_directory
canvas_directory-GoesOn sys cf lx h =
    alias-GoesOn cf lx (config_parse_directory sys cf lx) (directory-GoesOn sys cf lx h)

-- What the body for the option `command` gives.
abbrev CommandGoes : Config → Lexer → Command → Type 0
CommandGoes cf lx (done (some command), cf', lx') = Keeps cf cf' × Consumes lx lx'
CommandGoes cf lx (done none, cf', lx') = Keeps cf cf' × Moves lx lx'
CommandGoes cf lx (failed, cf', lx') = Keeps cf cf' × Unit
CommandGoes cf lx (out_of_fuel, cf', lx') = ⊥

with_env-CommandGoes :
    (cf : Config) (lx lx' : Lexer) (command : VariableValue) (env : Option VariableValue × Config)
    → Keeps cf env.1
    → Consumes lx lx'
    → CommandGoes cf lx (with_env command env lx')
unfolding with_env
with_env-CommandGoes cf lx lx' command (env, cf') k c =
    elim (Option-cases (command_with_env env command)) [
      | inl e ↦ rw (with_env, e) (k, tt)
      | inr (val, e) ↦ rw (with_env, e) (k, c)
    ]

parse_command-CommandGoes :
    (sys : System) (cf : Config) (lx : Lexer) (r : FromTokens)
    → Goes lx r
    → CommandGoes cf lx (parse_command sys cf r)
unfolding parse_command
parse_command-CommandGoes sys cf lx (done (append_value command), lx') g =
    elim (Bool-cases (is_empty_list command)) [
      | inl e ↦ rw (parse_command, e) (Keeps-refl cf, g)
      | inr e ↦
          rw (parse_command, e)
            (with_env-CommandGoes cf lx lx' command (config_find sys cf (codes "env"))
              (find-Keeps sys cf (codes "env")) g)
    ]
parse_command-CommandGoes sys cf lx (done config_error, lx') g = (Keeps-refl cf, g)
parse_command-CommandGoes sys cf lx (done config_nop, lx') g = (Keeps-refl cf, inl g)
parse_command-CommandGoes sys cf lx (done config_fatal, lx') g = (Keeps-refl cf, g)
parse_command-CommandGoes sys cf lx (failed, lx') g = (Keeps-refl cf, tt)
parse_command-CommandGoes sys cf lx (out_of_fuel, lx') g = g

go_on-GoesOn :
    (cf : Config) (lx : Lexer) (next : VariableValue → Config → Lexer → Outcome) (r : Command)
    → ((command : VariableValue) (cf' : Config) (lx' : Lexer)
        → Keeps cf cf'
        → Consumes lx lx'
        → GoesOn cf lx (next command cf' lx'))
    → CommandGoes cf lx r
    → GoesOn cf lx (go_on next r)
unfolding go_on
go_on-GoesOn cf lx next (done (some command), cf', lx') hn (k, c) = hn command cf' lx' k c
go_on-GoesOn cf lx next (done none, cf', lx') hn g = g
go_on-GoesOn cf lx next (failed, cf', lx') hn g = g
go_on-GoesOn cf lx next (out_of_fuel, cf', lx') hn g = absurd g

sentinel-Keeps : (css : List ConfigStep) (cf : Config) → Keeps cf (sentinel_before css cf)
unfolding sentinel_before
sentinel-Keeps [] cf = append-Keeps cf (codes "step") invalid
sentinel-Keeps (cs ∷ css) cf = Keeps-refl cf

add_step-Keeps : (cf : Config) (cs : ConfigStep) → Keeps cf (add_canvas_step cf cs)
unfolding add_canvas_step add_sentinel
add_step-Keeps cf cs =
    let k = sentinel-Keeps cf.canvas_steps cf in
    let x = k.extends in
    record {
      extends = record {
        same_mode = x.same_mode;
        same_path = x.same_path;
        same_grammar = x.same_grammar;
        same_steps = x.same_steps;
        not_early = x.not_early;
        counter = x.counter;
        values = x.values;
        more_names = x.more_names;
      };
      searches = k.searches;
    }

finish-GoesOn :
    (name : Bytes) (command : VariableValue) (parallel : Bool) (cf : Config) (lx lx' : Lexer)
    → Consumes lx lx'
    → GoesOn cf lx (finish_step name command parallel cf lx')
unfolding finish_step
finish-GoesOn name command parallel cf lx lx' c = elim (Bool-cases (is_empty_list command)) [
  | inl e ↦ rw (finish_step, e) (Keeps-refl cf, error-Moves (inl c))
  | inr e ↦ rw (finish_step, e) (add_step-Keeps cf _, c)
]

options-NoEof : NoEof options
options-NoEof = (omega arith, (omega arith, tt))

module _ (sys : System) (name : Bytes) where
  step_loop-GoesOn :
      (fuel : ℕ) (command : VariableValue) (parallel : Bool) (cf cf' : Config) (lx lx' : Lexer)
      → length lx'.lx_ahead < fuel
      → Keeps cf cf'
      → Consumes lx lx'
      → GoesOn cf lx (step_loop sys name fuel command parallel cf' lx')
  unfolding step_loop
  step_loop-GoesOn zero command parallel cf cf' lx lx' h k c = absurd (omega arith)
  step_loop-GoesOn (suc fuel) command parallel cf cf' lx lx' h k c =
      elim (first_of-Consumes options lx' options-NoEof c.is_open) [
        | inr (e, same) ↦
            rw (step_loop, e)
              (rw same
                (GoesOn-Keeps cf cf' lx _ k (finish-GoesOn name command parallel cf' lx lx' c)))
        | inl ((option_parallel, e), d) ↦
            rw (step_loop, e)
              (step_loop-GoesOn fuel command true cf cf' lx _ (omega (arith, d.shorter)) k
                (Consumes-trans c d))
        | inl ((option_command, e), d) ↦
            let lx1 = (first_of options lx').1 in
            let cd = Consumes-trans c d in
            rw (step_loop, e)
              (GoesOn-Keeps cf cf' lx _ k (
                GoesOn-after cf' cf' lx lx1 _ (Keeps-refl cf') cd (
                  go_on-GoesOn cf' lx1
                    (λ command' cf'' lx''. step_loop sys name fuel command' parallel cf'' lx'') _
                    (λ command' cf'' lx'' l m.
                      step_loop-GoesOn fuel command' parallel cf' cf'' lx1 lx''
                        (omega (arith, d.shorter, m.shorter)) l m)
                    (parse_command-CommandGoes sys cf' lx1 (config_parse_list lx1)
                      (list-Goes lx1 cd.is_open)))))
      ]

pub canvas_step-GoesOn :
    (sys : System) (cf : Config) (lx : Lexer)
    → IsOpen lx
    → GoesOn cf lx (config_parse_canvas_step sys cf lx)
unfolding config_parse_canvas_step
canvas_step-GoesOn sys cf lx h = elim (Option-cases (lexer_expect lx token_string).0) [
  | inl e ↦ rw (config_parse_canvas_step, e) (Keeps-refl cf, expect-Moves lx token_string h)
  | inr (t, e) ↦
      let lx' = (lexer_expect lx token_string).1 in
      rw (config_parse_canvas_step, e)
        (step_loop-GoesOn sys t.tk_str (suc (length lx'.lx_ahead)) invalid false cf cf lx lx'
          (omega arith) (Keeps-refl cf) (expect-Consumes lx token_string t h (omega arith) e))
]
