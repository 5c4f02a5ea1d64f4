-- ===== src/Step/Lex.antt =====
-- The tokens of a step file: `step_lexer_read` of step.c.
pub mod Reads
pub mod Lines
pub mod File
use robsd.Base.{
  ℕ, zero, suc, ◌+◌, Bool, true, false, ◌||◌, List, [], ◌∷◌, ◌++◌, Option, none, some, ◌==◌,
  if◌then◌else◌, Bytes, length, Result, done, failed, out_of_fuel,
}
use robsd.Lexer.{Token, Lexer, lexer_eof, lexer_emit, lexer_getc, lexer_ungetc, lexer_error}

abbrev pub token_comma : ℕ
token_comma = 0

abbrev pub token_value : ℕ
token_value = 1

abbrev pub token_newline : ℕ
token_newline = 2

-- The loop that collects a value into `bf`, at the byte `ch`. The result holds the value and the
-- byte that ends it; it is `failed` where the callback returns NULL.
unfoldable pub value_loop : ℕ → Bytes → ℕ → Lexer → Result (Bytes × ℕ) × Lexer
value_loop zero bf ch lx = (out_of_fuel, lx)
value_loop (suc fuel) bf ch lx =
    let bf' = bf ++ ch ∷ [] in
    let g = lexer_getc lx in
    let rest = value_loop fuel bf' g.ch g.lx in
    if g.past_end
    then (failed, g.lx)
    else if g.ch == 0
    then (failed, lexer_error g.lx)
    else if g.ch == b',' || g.ch == b'\n'
    then (done (bf', g.ch), g.lx)
    else rest

value_token : ℕ → Result (Bytes × ℕ) × Lexer → Result Token × Lexer
value_token lno (done (value, ch), lx) =
    (done (record (lexer_emit lno token_value) { tk_str = value }), lexer_ungetc lx ch)
value_token lno (failed, lx) = (failed, lx)
value_token lno (out_of_fuel, lx) = (out_of_fuel, lx)

-- The value that begins with the byte `ch`. Each round takes a byte, up to the end of the file.
unfoldable pub read_value : ℕ → ℕ → Lexer → Result Token × Lexer
unfolding value_token
read_value lno ch lx = value_token lno (value_loop (suc (length lx.lx_rest)) [] ch lx)

unfoldable pub step_lexer_read : Lexer → Result Token × Lexer
step_lexer_read lx =
    let lno = lx.lx_lno in
    let g = lexer_getc lx in
    if g.past_end
    then (failed, g.lx)
    else if g.ch == 0
    then (done (lexer_emit lno lexer_eof), g.lx)
    else if g.ch == b','
    then (done (lexer_emit lno token_comma), g.lx)
    else if g.ch == b'\n'
    then (done (lexer_emit lno token_newline), g.lx)
    else read_value lno g.ch g.lx
