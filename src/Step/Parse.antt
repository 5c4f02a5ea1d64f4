-- ===== src/Step/Parse.antt =====
-- Reading a step file: `steps_parse`, `steps_parse_header` and `steps_parse_row` of step.c.
--
-- A row is read into a step of its own, which is put behind the others when it is complete; in the C
-- code it stands in the vector while it is read, and an error gives up the whole file. A file that
-- cannot be opened, locked or read is `none`.
pub mod Ends
pub mod Valid
use robsd.Base.{
  ℕ, zero, suc, ◌+◌, Bool, true, false, List, [], ◌∷◌, ◌++◌, Option, none, some, if◌then◌else◌,
  Bytes, length, get_elem?, Result, done, failed, out_of_fuel, ◌>>=◌,
}
use robsd.Lexer.{Token, Lexer, lexer_eof, lexer_alloc, lexer_peek, lexer_expect, lexer_if}
use robsd.Step.{
  Step, StepFile, field_definition_find_by_name, step_set_field, step_init, step_validate,
  steps_append,
}
use robsd.Step.Lex.{token_comma, token_value, token_newline, step_lexer_read}

unfoldable pub header_loop : ℕ → StepFile → Lexer → Result (StepFile × Lexer)
header_loop zero sf lx = out_of_fuel
header_loop (suc fuel) sf lx =
    let v = lexer_expect lx token_value in
    elim v.0 [
      | none ↦ failed
      | some col ↦
          let sf' = record sf { columns = sf.columns ++ col.tk_str ∷ [] } in
          let n = lexer_if v.1 token_newline in
          elim n.0 [
            | some discard ↦ done (sf', n.1)
            | none ↦
                let c = lexer_expect n.1 token_comma in
                elim c.0 [ none ↦ failed | some discard ↦ header_loop fuel sf' c.1 ]
          ]
    ]

unfoldable pub steps_parse_header : StepFile → Lexer → Result (StepFile × Lexer)
steps_parse_header sf lx =
    let p = lexer_peek lx lexer_eof in
    if p.0 then done (sf, p.1) else header_loop (suc (length p.1.lx_ahead)) sf p.1

-- The value of column `col`: an error for a column or a field that is not there, and for a value
-- that cannot be set.
unfoldable pub row_value : List Bytes → Step → ℕ → Bytes → Result Step
row_value columns st col val = elim (get_elem? columns col) [
  | none ↦ failed
  | some key ↦ elim (field_definition_find_by_name key) [
    | none ↦ failed
    | some fd ↦ let r = step_set_field st key val in if r.0 then failed else done r.1
  ]
]

-- One round of the loop of `steps_parse_row` that does not begin with a comma; `next` is the loop.
unfoldable pub row_round :
    (Step → ℕ → Lexer → Result (Step × Lexer))
    → List Bytes
    → Step
    → ℕ
    → Lexer
    → Result (Step × Lexer)
row_round next columns st col lx =
    let v = lexer_expect lx token_value in
    elim v.0 [
      | none ↦ failed
      | some val ↦ elim (row_value columns st col val.tk_str) [
        | failed ↦ failed
        | out_of_fuel ↦ out_of_fuel
        | done st' ↦
            let n = lexer_if v.1 token_newline in
            elim n.0 [
              | some discard ↦ done (st', n.1)
              | none ↦
                  let c = lexer_expect n.1 token_comma in
                  elim c.0 [ none ↦ failed | some discard ↦ next st' (col + 1) c.1 ]
            ]
      ]
    ]

unfoldable pub row_loop : ℕ → List Bytes → Step → ℕ → Lexer → Result (Step × Lexer)
row_loop zero columns st col lx = out_of_fuel
row_loop (suc fuel) columns st col lx =
    let c = lexer_if lx token_comma in
    elim c.0 [
      | some discard ↦ row_loop fuel columns st (col + 1) c.1
      | none ↦ row_round (row_loop fuel columns) columns st col c.1
    ]

-- What follows the loop of `steps_parse_row`.
unfoldable pub finish_row : StepFile → Result (Step × Lexer) → Result (StepFile × Lexer)
finish_row sf failed = failed
finish_row sf out_of_fuel = out_of_fuel
finish_row sf (done (st, lx)) = if step_validate st then failed else done (steps_append sf st, lx)

unfoldable pub steps_parse_row : StepFile → Lexer → Result (StepFile × Lexer)
unfolding finish_row
steps_parse_row sf lx =
    if step_init.0
    then failed
    else finish_row sf (row_loop (suc (length lx.lx_ahead)) sf.columns step_init.1 0 lx)

-- The loop of `steps_parse` over the rows.
unfoldable pub rows_loop : ℕ → StepFile → Lexer → Result StepFile
rows_loop zero sf lx = out_of_fuel
rows_loop (suc fuel) sf lx =
    let p = lexer_peek lx lexer_eof in
    elim p.0 [
      | true ↦ done sf
      | false ↦ elim (steps_parse_row sf p.1) [
        | failed ↦ failed
        | out_of_fuel ↦ out_of_fuel
        | done (sf', lx') ↦ rows_loop fuel sf' lx'
      ]
    ]

abbrev pub no_steps : StepFile
no_steps = record { columns = []; steps = [] }

unfoldable pub parse_tokens : Lexer → Result StepFile
parse_tokens lx = elim (steps_parse_header no_steps lx) [
  | failed ↦ failed
  | out_of_fuel ↦ out_of_fuel
  | done (sf, lx') ↦ rows_loop (suc (length lx'.lx_ahead)) sf lx'
]

unfoldable pub steps_parse : Option Bytes → Result StepFile
steps_parse buf = lexer_alloc step_lexer_read buf >>= parse_tokens
