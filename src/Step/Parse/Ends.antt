-- ===== src/Step/Parse/Ends.antt =====
-- The parser of step files ends for every file.
use robsd.Base.{
  Option, ℕ, zero, suc, ◌+◌, ◌<◌, List, [], ◌∷◌, ◌++◌, Bytes, length, Result, done, failed,
  out_of_fuel, ◌≢◌, inl, inr, arith, Option-cases, Bool-cases, Result-cases,
}
use robsd.Lexer.{Lexer, lexer_eof, lexer_alloc, lexer_peek, lexer_expect, lexer_if}
use robsd.Lexer.Open.{
  alloc-IsOpen, IsOpen, Consumes, expect-Consumes, if-Consumes, peek-IsOpen, Ends, Consumes-trans,
  Ends-trans,
}
use robsd.Step.{Step, StepFile, step_validate}
use robsd.Step.Fields.{initial_step, step_init_lem}
use robsd.Step.Lex.{token_comma, token_value, token_newline, step_lexer_read}
use robsd.Step.Lex.Reads.{read-seen, alloc-ne-out_of_fuel}
use robsd.Step.Parse.{
  header_loop, steps_parse_header, row_value, row_round, row_loop, finish_row, steps_parse_row,
  rows_loop, no_steps, parse_tokens, steps_parse,
}

header-Ends :
    (fuel : ℕ) (sf : StepFile) (lx : Lexer)
    → length lx.lx_ahead < fuel
    → IsOpen lx
    → Ends lx (header_loop fuel sf lx)
unfolding header_loop
header-Ends zero sf lx h o = absurd (omega arith)
header-Ends (suc fuel) sf lx h o = elim (Option-cases (lexer_expect lx token_value).0) [
  | inl e ↦ rw (header_loop, e) tt
  | inr (t, e) ↦
      let lx1 = (lexer_expect lx token_value).1 in
      let c1 = expect-Consumes lx token_value t o (omega arith) e in
      elim (if-Consumes lx1 token_newline c1.is_open (omega arith)) [
        | inl ((u, e2), c2) ↦ rw (header_loop, e) (rw e2 (Consumes-trans c1 c2))
        | inr (e2, same) ↦ elim (Option-cases (lexer_expect lx1 token_comma).0) [
          | inl e3 ↦ rw (header_loop, e) (rw (e2, same) (rw e3 tt))
          | inr (w, e3) ↦
              let lx3 = (lexer_expect lx1 token_comma).1 in
              let sf' = record sf { columns = sf.columns ++ t.tk_str ∷ [] } in
              let c3 =
                Consumes-trans c1 (expect-Consumes lx1 token_comma w c1.is_open (omega arith) e3) in
              let rest = header-Ends fuel sf' lx3 (omega (arith, c3.shorter)) c3.is_open in
              rw (header_loop, e) (rw (e2, same) (rw e3 (rw same (Ends-trans _ c3 rest))))
        ]
      ]
]

row_value-ne-out_of_fuel :
    (columns : List Bytes) (st : Step) (col : ℕ) (val : Bytes)
    → row_value columns st col val ≢ out_of_fuel
unfolding row_value
row_value-ne-out_of_fuel columns st col val = ground arith

round-Ends :
    (next : Step → ℕ → Lexer → Result (Step × Lexer)) (columns : List Bytes) (st : Step) (col : ℕ)
    (lx : Lexer)
    → ((st' : Step) (lx' : Lexer) → Consumes lx lx' → Ends lx' (next st' (col + 1) lx'))
    → IsOpen lx
    → Ends lx (row_round next columns st col lx)
unfolding row_round
round-Ends next columns st col lx hn o = elim (Option-cases (lexer_expect lx token_value).0) [
  | inl e ↦ rw (row_round, e) tt
  | inr (t, e) ↦ elim (Result-cases (row_value columns st col t.tk_str)) [
    | inr (inl f) ↦ rw (row_round, e) (rw f tt)
    | inr (inr f) ↦ absurd (row_value-ne-out_of_fuel columns st col t.tk_str f)
    | inl (st', f) ↦
        let lx1 = (lexer_expect lx token_value).1 in
        let c1 = expect-Consumes lx token_value t o (omega arith) e in
        elim (if-Consumes lx1 token_newline c1.is_open (omega arith)) [
          | inl ((u, e2), c2) ↦ rw (row_round, e) (rw f (rw e2 (Consumes-trans c1 c2)))
          | inr (e2, same) ↦ elim (Option-cases (lexer_expect lx1 token_comma).0) [
            | inl e3 ↦ rw (row_round, e) (rw f (rw (e2, same) (rw e3 tt)))
            | inr (w, e3) ↦
                let lx3 = (lexer_expect lx1 token_comma).1 in
                let c3 =
                  Consumes-trans c1
                    (expect-Consumes lx1 token_comma w c1.is_open (omega arith) e3) in
                rw (row_round, e)
                  (rw f (rw (e2, same) (rw e3 (rw same (Ends-trans _ c3 (hn st' lx3 c3))))))
          ]
        ]
  ]
]

row-Ends :
    (fuel : ℕ) (columns : List Bytes) (st : Step) (col : ℕ) (lx : Lexer)
    → length lx.lx_ahead < fuel
    → IsOpen lx
    → Ends lx (row_loop fuel columns st col lx)
unfolding row_loop
row-Ends zero columns st col lx h o = absurd (omega arith)
row-Ends (suc fuel) columns st col lx h o = elim (if-Consumes lx token_comma o (omega arith)) [
  | inl ((t, e), c) ↦
      let lx1 = (lexer_if lx token_comma).1 in
      let rest = row-Ends fuel columns st (col + 1) lx1 (omega (arith, c.shorter)) c.is_open in
      rw (row_loop, e) (Ends-trans _ c rest)
  | inr (e, same) ↦
      rw (row_loop, e)
        (rw same (
          round-Ends (row_loop fuel columns) columns st col lx
            (λ st' lx' c.
              row-Ends fuel columns st' (col + 1) lx' (omega (arith, c.shorter)) c.is_open)
            o))
]

finish-Ends :
    (sf : StepFile) (lx : Lexer) (r : Result (Step × Lexer)) → Ends lx r → Ends lx (finish_row sf r)
unfolding finish_row
finish-Ends sf lx (done (st, lx')) c = elim (Bool-cases (step_validate st)) [
  | inl e ↦ rw e tt
  | inr e ↦ rw e c
]
finish-Ends sf lx failed c = tt
finish-Ends sf lx out_of_fuel c = c

parse_row-Ends : (sf : StepFile) (lx : Lexer) → IsOpen lx → Ends lx (steps_parse_row sf lx)
unfolding steps_parse_row
parse_row-Ends sf lx o =
    rw (steps_parse_row, step_init_lem)
      (finish-Ends sf lx _
        (row-Ends (suc (length lx.lx_ahead)) sf.columns initial_step 0 lx (omega arith) o))

rows_loop-ne-out_of_fuel :
    (fuel : ℕ) (sf : StepFile) (lx : Lexer)
    → length lx.lx_ahead < fuel
    → IsOpen lx
    → rows_loop fuel sf lx ≢ out_of_fuel
unfolding rows_loop
rows_loop-ne-out_of_fuel zero sf lx h o = absurd (omega arith)
rows_loop-ne-out_of_fuel (suc fuel) sf lx h o =
    let same = peek-IsOpen lx lexer_eof o in
    elim (Bool-cases (lexer_peek lx lexer_eof).0) [
      | inl e ↦ rw (rows_loop, e) (cc)
      | inr e ↦ elim (Result-cases (steps_parse_row sf lx)) [
        | inr (inl f) ↦ rw (rows_loop, e) (rw same (rw f (cc)))
        | inr (inr f) ↦ absurd (rw f at (parse_row-Ends sf lx o))
        | inl ((sf', lx'), f) ↦
            let c : Consumes lx lx' = rw f at (parse_row-Ends sf lx o) in
            rw (rows_loop, e)
              (rw same
                (rw f (rows_loop-ne-out_of_fuel fuel sf' lx' (omega (arith, c.shorter)) c.is_open)))
      ]
    ]

parse_tokens-ne-out_of_fuel : (lx : Lexer) → IsOpen lx → parse_tokens lx ≢ out_of_fuel
unfolding parse_tokens steps_parse_header
parse_tokens-ne-out_of_fuel lx o =
    let same = peek-IsOpen lx lexer_eof o in
    let enough = rows_loop-ne-out_of_fuel (suc (length lx.lx_ahead)) no_steps lx (omega arith) o in
    let header = header_loop (suc (length lx.lx_ahead)) no_steps lx in
    let ends = header-Ends (suc (length lx.lx_ahead)) no_steps lx (omega arith) o in
    elim (Bool-cases (lexer_peek lx lexer_eof).0) [
      | inl e ↦ ground (arith, same, enough)
      | inr e ↦ elim (Result-cases header) [
        | inr (inl f) ↦ ground (arith, same)
        | inr (inr f) ↦ absurd (rw f at ends)
        | inl ((sf, lx'), f) ↦
            let c : Consumes lx lx' = rw f at ends in
            let rest =
              rows_loop-ne-out_of_fuel (suc (length lx'.lx_ahead)) sf lx' (omega arith) c.is_open in
            ground (arith, same, rest)
      ]
    ]

-- `steps_parse` returns for every file: the fuel of its loops is never used up.
pub parse-ne-out_of_fuel : (buf : Option Bytes) → steps_parse buf ≢ out_of_fuel
unfolding steps_parse
parse-ne-out_of_fuel buf = elim (Result-cases (lexer_alloc step_lexer_read buf)) [
  | inr (inl e) ↦ rw e (cc)
  | inr (inr e) ↦ absurd (alloc-ne-out_of_fuel buf e)
  | inl (lx, e) ↦
      rw e (parse_tokens-ne-out_of_fuel lx (alloc-IsOpen step_lexer_read read-seen buf lx e))
]
