-- ===== src/Config/File/Ends.antt =====
-- Parsing a configuration ends, and keeps what no operation changes.
use robsd.Base.{
  ℕ, zero, suc, ◌<◌, Bool, true, false, not, ◌&&◌, List, [], ◌∷◌, some, Bytes, length, Result, done,
  failed, out_of_fuel, ◌≡◌, ◌≢◌, ◌⊎◌, refl, inl, inr, arith, Bool-cases, Option-cases,
}
use robsd.Mode.{RobsdMode, plain_robsd, robsd_cross, robsd_ports, robsd_regress, canvas}
use robsd.Lexer.{Token, Lexer, lexer_eof, lexer_next, lexer_expect, lexer_peek}
use robsd.Lexer.Open.{IsOpen, Consumes, expect-Consumes, peek-IsOpen, alloc-IsOpen}
use robsd.Config.Token.{token_keyword}
use robsd.Config.Lex.{Overflow, config_lexer_read}
use robsd.Config.Lex.Reads.{config_alloc-ne-out_of_fuel, config_read-seen}
use robsd.Config.Grammar.{
  Grammar, Parser, parse_boolean, parse_string, parse_integer, parse_glob, parse_list, parse_user,
  parse_timeout, parse_directory, parse_regress, parse_regress_env, parse_canvas_directory,
  parse_canvas_step, config_find_grammar_for_keyword,
}
use robsd.Config.State.{System, Config, config_present}
use robsd.Config.State.Keeps.{Keeps, Keeps-refl, Keeps-trans, append-Keeps, IsShallow, IsDependent}
use robsd.Config.State.Extends.{Extends, Extends-refl}
use robsd.Config.Parse.{
  append_value, config_error, config_nop, config_fatal, Outcome, config_parse_boolean,
  config_parse_string, config_parse_integer, config_parse_glob, config_parse_list,
  config_parse_user, config_parse_timeout,
}
use robsd.Config.Parse.Ends.{
  AtEof, Moves, GoesOn, GoesOn-after, error-Consumes, error-Moves, unchanged-GoesOn, boolean-Goes,
  string-Goes, integer-Goes, glob-Goes, list-Goes, user-Goes, timeout-Goes, directory-GoesOn,
}
use robsd.Config.Regress.Ends.{regress-GoesOn, regress_env-GoesOn}
use robsd.Config.Canvas.Ends.{canvas_directory-GoesOn, canvas_step-GoesOn}
use robsd.Config.File.{
  parse_value, append_parsed, already_defined, parse_keyword_by, config_parse_keyword, inner_loop,
  go_on, inner_result, config_parse_inner, after_parse_in, after_parse, parsed, parse_from,
  config_parse,
}

append_parsed-GoesOn :
    (cf : Config) (lx : Lexer) (name : Bytes) (r : Outcome)
    → GoesOn cf lx r
    → GoesOn cf lx (append_parsed name r)
unfolding append_parsed
append_parsed-GoesOn cf lx name (done (append_value val), cf', lx') (k, g) =
    (Keeps-trans cf cf' _ k (append-Keeps cf' name val), g)
append_parsed-GoesOn cf lx name (done config_error, cf', lx') g = g
append_parsed-GoesOn cf lx name (done config_nop, cf', lx') g = g
append_parsed-GoesOn cf lx name (done config_fatal, cf', lx') g = g
append_parsed-GoesOn cf lx name (failed, cf', lx') g = g
append_parsed-GoesOn cf lx name (out_of_fuel, cf', lx') g = g

already_defined-GoesOn :
    (cf : Config) (lx : Lexer) (r : Outcome) → GoesOn cf lx r → GoesOn cf lx (already_defined r)
unfolding already_defined
already_defined-GoesOn cf lx (done (append_value val), cf', lx') (k, g) = (k, error-Moves (inl g))
already_defined-GoesOn cf lx (done config_error, cf', lx') (k, g) = (k, error-Moves g)
already_defined-GoesOn cf lx (done config_nop, cf', lx') (k, g) = (k, error-Moves (inl g))
already_defined-GoesOn cf lx (done config_fatal, cf', lx') (k, g) = (k, error-Moves g)
already_defined-GoesOn cf lx (failed, cf', lx') g = g
already_defined-GoesOn cf lx (out_of_fuel, cf', lx') g = g

module _ (o : Overflow) (sys : System) where
  value-GoesOn :
      (fn : Parser) (cf : Config) (lx : Lexer)
      → IsOpen lx
      → GoesOn cf lx (parse_value o sys fn cf lx)
  unfolding parse_value
  value-GoesOn parse_boolean cf lx h =
      unchanged-GoesOn cf lx (config_parse_boolean lx) (boolean-Goes lx h)
  value-GoesOn parse_string cf lx h =
      unchanged-GoesOn cf lx (config_parse_string lx) (string-Goes lx h)
  value-GoesOn parse_integer cf lx h =
      unchanged-GoesOn cf lx (config_parse_integer lx) (integer-Goes lx h)
  value-GoesOn parse_glob cf lx h =
      unchanged-GoesOn cf lx (config_parse_glob sys lx) (glob-Goes sys lx h)
  value-GoesOn parse_list cf lx h = unchanged-GoesOn cf lx (config_parse_list lx) (list-Goes lx h)
  value-GoesOn parse_user cf lx h =
      unchanged-GoesOn cf lx (config_parse_user sys lx) (user-Goes sys lx h)
  value-GoesOn parse_timeout cf lx h =
      unchanged-GoesOn cf lx (config_parse_timeout o lx) (timeout-Goes o lx h)
  value-GoesOn parse_directory cf lx h = directory-GoesOn sys cf lx h
  value-GoesOn parse_regress cf lx h = regress-GoesOn o sys cf lx h
  value-GoesOn parse_regress_env cf lx h = regress_env-GoesOn cf lx h
  value-GoesOn parse_canvas_directory cf lx h = canvas_directory-GoesOn sys cf lx h
  value-GoesOn parse_canvas_step cf lx h = canvas_step-GoesOn sys cf lx h

  keyword_by-GoesOn :
      (gr : Grammar) (cf : Config) (lx : Lexer) (tk : Token)
      → IsOpen lx
      → GoesOn cf lx (parse_keyword_by o sys gr cf lx tk)
  unfolding parse_keyword_by
  keyword_by-GoesOn gr cf lx tk h = elim (Option-cases gr.gr_fn) [
    | inl e ↦ rw (parse_keyword_by, e) (Keeps-refl cf, tt)
    | inr (fn, e) ↦
        let r = append_parsed tk.tk_str (parse_value o sys fn cf lx) in
        let g : GoesOn cf lx r = append_parsed-GoesOn cf lx tk.tk_str _ (value-GoesOn fn cf lx h) in
        elim (Bool-cases (not gr.gr_flags.rep && config_present cf tk.tk_str)) [
          | inl f ↦ rw (parse_keyword_by, e) (rw f (already_defined-GoesOn cf lx r g))
          | inr f ↦ rw (parse_keyword_by, e) (rw f g)
        ]
  ]

  -- Behind the keyword.
  keyword-GoesOn :
      (cf : Config) (lx lx' : Lexer) (tk : Token)
      → Consumes lx lx'
      → GoesOn cf lx (config_parse_keyword o sys cf lx' tk)
  unfolding config_parse_keyword
  keyword-GoesOn cf lx lx' tk c =
      elim (Option-cases (config_find_grammar_for_keyword cf.grammar tk.tk_str)) [
        | inl e ↦ rw (config_parse_keyword, e) (Keeps-refl cf, inl (error-Consumes c))
        | inr (gr, e) ↦
            rw (config_parse_keyword, e)
              (GoesOn-after cf cf lx lx' _ (Keeps-refl cf) c
                (keyword_by-GoesOn gr cf lx' tk c.is_open))
      ]

-- The loop can begin a round: before the last token with fuel for those ahead, or at the last one.
abbrev Ready : ℕ → Lexer → Type 0
Ready fuel lx = (IsOpen lx × (length lx.lx_ahead < fuel)) ⊎ (AtEof lx.lx_seen × (0 < fuel))

-- Behind a round that took a token.
later-Ready :
    {fuel : ℕ} {lx lx1 lx' : Lexer}
    → length lx.lx_ahead < suc fuel
    → Consumes lx lx1
    → Moves lx lx'
    → Ready fuel lx'
later-Ready h d (inl c) = inl (c.is_open, omega (arith, c.shorter))
later-Ready h d (inr e) = inr (e, omega (arith, d.shorter))

next-AtEof :
    (lx : Lexer) (t : Token) (seen : List Token)
    → lx.lx_seen ≡ t ∷ seen
    → t.tk_type ≡ lexer_eof
    → (lexer_next lx).0 ≡ some t
unfolding lexer_next
next-AtEof lx t seen e b = ground arith

peek-AtEof : (lx : Lexer) → AtEof lx.lx_seen → (lexer_peek lx lexer_eof).0 ≡ true
unfolding lexer_peek
peek-AtEof lx h = go lx.lx_seen refl h
  where
    go : (seen : List Token) → lx.lx_seen ≡ seen → AtEof seen → (lexer_peek lx lexer_eof).0 ≡ true
    go [] e b = absurd b
    go (t ∷ seen) e b = ground (arith, next-AtEof lx t seen e b)

-- What the loop gives.
abbrev LoopEnds : Config → Result Bool × Config × Lexer → Type 0
LoopEnds cf (r, cf', lx') = (r ≢ out_of_fuel) × Keeps cf cf'

LoopEnds-Keeps :
    (cf cf' : Config) (r : Result Bool × Config × Lexer)
    → Keeps cf cf'
    → LoopEnds cf' r
    → LoopEnds cf r
LoopEnds-Keeps cf cf' (r, cf'', lx') k (e, l) = (e, Keeps-trans cf cf' cf'' k l)

go_on-LoopEnds :
    (cf : Config) (lx : Lexer) (next : Bool → Config → Lexer → Result Bool × Config × Lexer)
    (error : Bool) (r : Outcome)
    → ((error' : Bool) (cf' : Config) (lx' : Lexer)
        → Moves lx lx'
        → LoopEnds cf' (next error' cf' lx'))
    → GoesOn cf lx r
    → LoopEnds cf (go_on next error r)
unfolding go_on
go_on-LoopEnds cf lx next error (done config_error, cf', lx') hn (k, g) =
    LoopEnds-Keeps cf cf' (next true cf' lx') k (hn true cf' lx' g)
go_on-LoopEnds cf lx next error (done config_fatal, cf', lx') hn (k, g) = (cc, k)
go_on-LoopEnds cf lx next error (done (append_value val), cf', lx') hn (k, g) =
    LoopEnds-Keeps cf cf' (next error cf' lx') k (hn error cf' lx' (inl g))
go_on-LoopEnds cf lx next error (done config_nop, cf', lx') hn (k, g) =
    LoopEnds-Keeps cf cf' (next error cf' lx') k (hn error cf' lx' (inl g))
go_on-LoopEnds cf lx next error (failed, cf', lx') hn (k, g) = (cc, k)
go_on-LoopEnds cf lx next error (out_of_fuel, cf', lx') hn (k, g) = absurd g

inner_result-ends :
    (cf : Config) (r : Result Bool × Config × Lexer)
    → LoopEnds cf r
    → ((inner_result r).0 ≢ out_of_fuel) × Keeps cf (inner_result r).1
unfolding inner_result
inner_result-ends cf (done error, cf', lx) (e, k) = (cc, k)
inner_result-ends cf (failed, cf', lx) (e, k) = (cc, k)
inner_result-ends cf (out_of_fuel, cf', lx) (e, k) = absurd (e refl)

after_parse-Keeps : (cf : Config) → Keeps cf (after_parse cf)
unfolding after_parse after_parse_in
after_parse-Keeps cf = with_mode cf.mode
  where
    with_mode : (m : RobsdMode) → Keeps cf (after_parse_in m cf)
    with_mode plain_robsd = Keeps-refl cf
    with_mode robsd_cross = Keeps-refl cf
    with_mode robsd_ports = Keeps-refl cf
    with_mode robsd_regress = Keeps-refl cf
    with_mode canvas = record {
      extends = record {
        same_mode = refl;
        same_path = refl;
        same_grammar = refl;
        same_steps = refl;
        not_early = λ h. h;
        counter = λ h. h;
        values = (Extends-refl cf).values;
        more_names = (Extends-refl cf).more_names;
      };
      searches = λ g h. inl h;
    }

parsed-ends :
    (cf : Config) (r : Result Bool × Config)
    → (r.0 ≢ out_of_fuel) × Keeps cf r.1
    → ((parsed r).0 ≢ out_of_fuel) × Keeps cf (parsed r).1
unfolding parsed
parsed-ends cf (done false, cf') (e, k) = (cc, Keeps-trans cf cf' _ k (after_parse-Keeps cf'))
parsed-ends cf (done true, cf') h = h
parsed-ends cf (failed, cf') h = h
parsed-ends cf (out_of_fuel, cf') h = h

module _ (o : Overflow) (sys : System) where
  loop-LoopEnds :
      (fuel : ℕ) (error : Bool) (cf : Config) (lx : Lexer)
      → Ready fuel lx
      → LoopEnds cf (inner_loop o sys fuel error cf lx)
  unfolding inner_loop
  loop-LoopEnds zero error cf lx (inl (h, l)) = absurd (omega arith)
  loop-LoopEnds zero error cf lx (inr (h, l)) = absurd (omega arith)
  loop-LoopEnds (suc fuel) error cf lx (inr (h, l)) =
      rw (inner_loop, peek-AtEof lx h) (cc, Keeps-refl cf)
  loop-LoopEnds (suc fuel) error cf lx (inl (h, l)) =
      let same = peek-IsOpen lx lexer_eof h in
      elim (Bool-cases (lexer_peek lx lexer_eof).0) [
        | inl e ↦ rw (inner_loop, e) (cc, Keeps-refl cf)
        | inr e ↦ elim (Option-cases (lexer_expect lx token_keyword).0) [
          | inl f ↦ rw (inner_loop, e) (rw same (rw f (cc, Keeps-refl cf)))
          | inr (t, f) ↦
              let lx1 = (lexer_expect lx token_keyword).1 in
              let c = expect-Consumes lx token_keyword t h (omega arith) f in
              rw (inner_loop, e)
                (rw same (
                  rw f (
                    rw same (
                      go_on-LoopEnds cf lx (inner_loop o sys fuel) error _
                        (λ error' cf' lx' m. loop-LoopEnds fuel error' cf' lx' (later-Ready l c m))
                        (keyword-GoesOn o sys cf lx lx1 t c)))))
        ]
      ]

  inner-LoopEnds :
      (cf : Config) (lx : Lexer)
      → IsOpen lx
      → ((config_parse_inner o sys cf lx).0 ≢ out_of_fuel)
        × Keeps cf (config_parse_inner o sys cf lx).1
  unfolding config_parse_inner
  inner-LoopEnds cf lx h =
      inner_result-ends cf (inner_loop o sys (suc (length lx.lx_ahead)) false cf lx)
        (loop-LoopEnds (suc (length lx.lx_ahead)) false cf lx (inl (h, omega arith)))

  parse_from-ends :
      (cf : Config) (r : Result Lexer)
      → r ≢ out_of_fuel
      → ((lx : Lexer) → r ≡ done lx → IsOpen lx)
      → ((parse_from o sys cf r).0 ≢ out_of_fuel) × Keeps cf (parse_from o sys cf r).1
  unfolding parse_from
  parse_from-ends cf (done lx) ne h = parsed-ends cf _ (inner-LoopEnds cf lx (h lx refl))
  parse_from-ends cf failed ne h = (cc, Keeps-refl cf)
  parse_from-ends cf out_of_fuel ne h = absurd (ne refl)

  pub parse-Keeps :
      (cf : Config) → ((config_parse o sys cf).0 ≢ out_of_fuel) × Keeps cf (config_parse o sys cf).1
  unfolding config_parse
  parse-Keeps cf =
      parse_from-ends cf _ (config_alloc-ne-out_of_fuel o cf.mode (sys.read_file cf.path)) (
        alloc-IsOpen (config_lexer_read o cf.mode) (config_read-seen o cf.mode)
          (sys.read_file cf.path))

  ended :
      (cf : Config) (r : Result Bool × Config)
      → IsShallow cf.grammar
      → cf.stuck ≡ false
      → (r.0 ≢ out_of_fuel) × Keeps cf r.1
      → (r.0 ≢ out_of_fuel) × ((r.1.stuck ≡ false) ⊎ IsDependent r.1) × Extends cf r.1
  ended cf r g h (e, k) = (e, k.searches g h, k.extends)

  -- From a configuration in which a search is no deeper than those that the modes need.
  pub config_parse-Extends :
      (cf : Config)
      → IsShallow cf.grammar
      → cf.stuck ≡ false
      → ((config_parse o sys cf).0 ≢ out_of_fuel)
        × (((config_parse o sys cf).1.stuck ≡ false) ⊎ IsDependent (config_parse o sys cf).1)
        × Extends cf (config_parse o sys cf).1
  config_parse-Extends cf g h = ended cf (config_parse o sys cf) g h (parse-Keeps cf)
