-- ===== src/Step/Parse/Valid.antt =====
-- The steps of a parsed file are complete, and of the types that the table asks for.
use robsd.Base.{
  Bytes, ℕ, zero, suc, ◌+◌, List, [], ◌∷◌, ◌++◌, Option, Bytes, length, get_elem?, Result, done,
  failed, out_of_fuel, ◌≡◌, inl, inr, arith, refl, Option-cases, Bool-cases, Result-cases, All,
  All-append,
}
use mathlib.Core.Path.{subst}
use robsd.Lexer.{Lexer, lexer_eof, lexer_alloc, lexer_peek, lexer_expect, lexer_if}
use robsd.Step.{
  Step, StepFile, field_definition_find_by_name, step_set_field, step_validate, steps_append,
}
use robsd.Step.Complete.{
  IsComplete, IsPartial, set_field-IsPartial, initial-IsPartial, validate-IsComplete,
}
use robsd.Step.Fields.{initial_step, step_init_lem}
use robsd.Step.Lex.{token_comma, token_value, token_newline, step_lexer_read}
use robsd.Step.Parse.{
  header_loop, steps_parse_header, row_value, row_round, row_loop, finish_row, steps_parse_row,
  rows_loop, no_steps, parse_tokens, steps_parse,
}

row_value-IsPartial :
    (columns : List Bytes) (st st' : Step) (col : ℕ) (val : Bytes)
    → IsPartial st
    → row_value columns st col val ≡ done st'
    → IsPartial st'
unfolding row_value
row_value-IsPartial columns st st' col val p h = elim (Option-cases (get_elem? columns col)) [
  | inl e ↦ absurd (ground arith)
  | inr (key, e) ↦ elim (Option-cases (field_definition_find_by_name key)) [
    | inl f ↦ absurd (ground arith)
    | inr (fd, f) ↦ elim (Bool-cases (step_set_field st key val).0) [
      | inl g ↦ absurd (ground arith)
      | inr g ↦
          let q : (step_set_field st key val).1 ≡ st' = ground arith in
          subst IsPartial q (set_field-IsPartial st key val p g)
    ]
  ]
]

abbrev KeepsPartial : Result (Step × Lexer) → Type 0
KeepsPartial (done (st, lx)) = IsPartial st
KeepsPartial _ = Unit

round-KeepsPartial :
    (next : Step → ℕ → Lexer → Result (Step × Lexer)) (columns : List Bytes) (st : Step) (col : ℕ)
    (lx : Lexer)
    → ((st' : Step) (lx' : Lexer) → IsPartial st' → KeepsPartial (next st' (col + 1) lx'))
    → IsPartial st
    → KeepsPartial (row_round next columns st col lx)
unfolding row_round
round-KeepsPartial next columns st col lx hn p =
    elim (Option-cases (lexer_expect lx token_value).0) [
      | inl e ↦ rw (row_round, e) tt
      | inr (t, e) ↦ elim (Result-cases (row_value columns st col t.tk_str)) [
        | inr (inl f) ↦ rw (row_round, e) (rw f tt)
        | inr (inr f) ↦ rw (row_round, e) (rw f tt)
        | inl (st', f) ↦
            let p' = row_value-IsPartial columns st st' col t.tk_str p f in
            let lx2 = lexer_if (lexer_expect lx token_value).1 token_newline in
            elim (Option-cases lx2.0) [
              | inr (u, e2) ↦ rw (row_round, e) (rw f (rw e2 p'))
              | inl e2 ↦ elim (Option-cases (lexer_expect lx2.1 token_comma).0) [
                | inl e3 ↦ rw (row_round, e) (rw f (rw e2 (rw e3 tt)))
                | inr (w, e3) ↦
                    rw (row_round, e)
                      (rw f (rw e2 (rw e3 (hn st' (lexer_expect lx2.1 token_comma).1 p'))))
              ]
            ]
      ]
    ]

row-KeepsPartial :
    (fuel : ℕ) (columns : List Bytes) (st : Step) (col : ℕ) (lx : Lexer)
    → IsPartial st
    → KeepsPartial (row_loop fuel columns st col lx)
unfolding row_loop
row-KeepsPartial zero columns st col lx p = tt
row-KeepsPartial (suc fuel) columns st col lx p = elim (Option-cases (lexer_if lx token_comma).0) [
  | inr (t, e) ↦
      rw (row_loop, e) (row-KeepsPartial fuel columns st (col + 1) (lexer_if lx token_comma).1 p)
  | inl e ↦
      rw (row_loop, e)
        (round-KeepsPartial (row_loop fuel columns) columns st col (lexer_if lx token_comma).1
          (λ st' lx' p'. row-KeepsPartial fuel columns st' (col + 1) lx' p') p)
]

-- A file whose steps are all complete.
abbrev AllComplete : StepFile → Type 0
AllComplete sf = All IsComplete sf.steps

finish-AllComplete :
    (sf sf' : StepFile) (lx' : Lexer) (r : Result (Step × Lexer))
    → AllComplete sf
    → KeepsPartial r
    → finish_row sf r ≡ done (sf', lx')
    → AllComplete sf'
unfolding finish_row
finish-AllComplete sf sf' lx' failed a k h = cc
finish-AllComplete sf sf' lx' out_of_fuel a k h = cc
finish-AllComplete sf sf' lx' (done (st, lx)) a k h = elim (Bool-cases (step_validate st)) [
  | inl e ↦ absurd (ground arith)
  | inr e ↦
      let q : steps_append sf st ≡ sf' = ground arith in
      subst AllComplete q
        (All-append IsComplete sf.steps (st ∷ []) a (validate-IsComplete st k e, tt))
]

parse_row-AllComplete :
    (sf sf' : StepFile) (lx lx' : Lexer)
    → AllComplete sf
    → steps_parse_row sf lx ≡ done (sf', lx')
    → AllComplete sf'
unfolding steps_parse_row
parse_row-AllComplete sf sf' lx lx' a h =
    let fuel = suc (length lx.lx_ahead) in
    finish-AllComplete sf sf' lx' (row_loop fuel sf.columns initial_step 0 lx) a
      (row-KeepsPartial fuel sf.columns initial_step 0 lx initial-IsPartial)
      (rw (steps_parse_row, step_init_lem) at h)

rows_loop-AllComplete :
    (fuel : ℕ) (sf sf' : StepFile) (lx : Lexer)
    → AllComplete sf
    → rows_loop fuel sf lx ≡ done sf'
    → AllComplete sf'
unfolding rows_loop
rows_loop-AllComplete zero sf sf' lx a h = cc
rows_loop-AllComplete (suc fuel) sf sf' lx a h =
    let p = lexer_peek lx lexer_eof in
    elim (Bool-cases p.0) [
      | inl e ↦ let q : sf ≡ sf' = ground arith in subst AllComplete q a
      | inr e ↦ elim (Result-cases (steps_parse_row sf p.1)) [
        | inr (inl f) ↦ absurd (ground arith)
        | inr (inr f) ↦ absurd (ground arith)
        | inl ((sf1, lx1), f) ↦
            rows_loop-AllComplete fuel sf1 sf' lx1 (parse_row-AllComplete sf sf1 p.1 lx1 a f)
              (ground arith)
      ]
    ]

abbrev KeepsSteps : StepFile → Result (StepFile × Lexer) → Type 0
KeepsSteps sf (done (sf', lx)) = sf'.steps ≡ sf.steps
KeepsSteps sf _ = Unit

header-KeepsSteps : (fuel : ℕ) (sf : StepFile) (lx : Lexer) → KeepsSteps sf (header_loop fuel sf lx)
unfolding header_loop
header-KeepsSteps zero sf lx = tt
header-KeepsSteps (suc fuel) sf lx = elim (Option-cases (lexer_expect lx token_value).0) [
  | inl e ↦ rw (header_loop, e) tt
  | inr (t, e) ↦
      let n = lexer_if (lexer_expect lx token_value).1 token_newline in
      let sf' = record sf { columns = sf.columns ++ t.tk_str ∷ [] } in
      elim (Option-cases n.0) [
        | inr (u, e2) ↦ rw (header_loop, e) (rw e2 refl)
        | inl e2 ↦ elim (Option-cases (lexer_expect n.1 token_comma).0) [
          | inl e3 ↦ rw (header_loop, e) (rw e2 (rw e3 tt))
          | inr (w, e3) ↦
              rw (header_loop, e)
                (rw e2 (rw e3 (header-KeepsSteps fuel sf' (lexer_expect n.1 token_comma).1)))
        ]
      ]
]

parse_tokens-AllComplete : (lx : Lexer) (sf : StepFile) → parse_tokens lx ≡ done sf → AllComplete sf
unfolding parse_tokens steps_parse_header
parse_tokens-AllComplete lx sf h =
    let p = lexer_peek lx lexer_eof in
    let fuel = suc (length p.1.lx_ahead) in
    let header = header_loop fuel no_steps p.1 in
    let kept = header-KeepsSteps fuel no_steps p.1 in
    elim (Bool-cases p.0) [
      | inl e ↦ rows_loop-AllComplete fuel no_steps sf p.1 tt (ground arith)
      | inr e ↦ elim (Result-cases header) [
        | inr (inl f) ↦ absurd (ground arith)
        | inr (inr f) ↦ absurd (ground arith)
        | inl ((sf1, lx1), f) ↦
            let none_yet : sf1.steps ≡ [] = rw f at kept in
            rows_loop-AllComplete (suc (length lx1.lx_ahead)) sf1 sf lx1 (rw none_yet tt)
              (ground arith)
      ]
    ]

-- In every step of a parsed file each field of the table is set, also the optional ones, to a value
-- of its type, and its integers are int64.
pub parse-AllComplete :
    (buf : Option Bytes) (sf : StepFile) → steps_parse buf ≡ done sf → All IsComplete sf.steps
unfolding steps_parse
parse-AllComplete buf sf h = elim (Result-cases (lexer_alloc step_lexer_read buf)) [
  | inl (lx, e) ↦ parse_tokens-AllComplete lx sf (ground arith)
  | inr e ↦ absurd (ground arith)
]
