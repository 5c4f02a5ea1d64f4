-- ===== src/Step/Lex/Reads.antt =====
-- The callback returns, and `lexer_alloc` ends.
use robsd.Base.{
  refl, Result-cases, inl, inr, ℕ, zero, suc, ◌<◌, ◌≤◌, [], ◌∷◌, ◌++◌, Option, none, some, Bytes,
  length, done, out_of_fuel, ◌≡◌, ◌≢◌, arith,
}
use robsd.Lexer.{
  Token, Lexer, lexer_eof, lexer_emit, lexer_error, lexer_getc, lexer_alloc, lexer_start,
}
use robsd.Lexer.Input.{
  alloc_loop-ne-out_of_fuel, length-getc, length-ungetc, getc-seen, ungetc-seen,
}
use robsd.Step.Lex.{value_loop, read_value, step_lexer_read}

-- More fuel than there are bytes is enough, since the end of the file ends the loop.
value_loop-ne-out_of_fuel :
    (fuel : ℕ) (bf : Bytes) (ch : ℕ) (lx : Lexer)
    → length lx.lx_rest < fuel
    → (value_loop fuel bf ch lx).0 ≢ out_of_fuel
unfolding value_loop
value_loop-ne-out_of_fuel zero bf ch lx h = absurd (omega arith)
value_loop-ne-out_of_fuel (suc fuel) bf ch lx h =
    let g = lexer_getc lx in
    ground (arith, length-getc lx, value_loop-ne-out_of_fuel fuel (bf ++ ch ∷ []) g.ch g.lx)

-- The byte that ends a value is one more byte read.
value_loop-shrinks :
    (fuel : ℕ) (bf : Bytes) (ch : ℕ) (lx : Lexer) (v : Bytes × ℕ)
    → (value_loop fuel bf ch lx).0 ≡ done v
    → suc (length (value_loop fuel bf ch lx).1.lx_rest) ≤ length lx.lx_rest
unfolding value_loop
value_loop-shrinks zero bf ch lx v h = cc
value_loop-shrinks (suc fuel) bf ch lx v h =
    let g = lexer_getc lx in
    ground (arith, length-getc lx, value_loop-shrinks fuel (bf ++ ch ∷ []) g.ch g.lx v)

read_value-ne-out_of_fuel : (lno ch : ℕ) (lx : Lexer) → (read_value lno ch lx).0 ≢ out_of_fuel
unfolding read_value
read_value-ne-out_of_fuel lno ch lx =
    let fuel = suc (length lx.lx_rest) in
    let returns = value_loop-ne-out_of_fuel fuel [] ch lx (omega arith) in ground (arith, returns)

read_value-shrinks :
    (lno ch : ℕ) (lx : Lexer) (t : Token)
    → (read_value lno ch lx).0 ≡ done t
    → length (read_value lno ch lx).1.lx_rest ≤ length lx.lx_rest
unfolding read_value
read_value-shrinks lno ch lx t e =
    let fuel = suc (length lx.lx_rest) in
    let r = value_loop fuel [] ch lx in
    elim (Result-cases r.0) [
      | inl (v, eq) ↦ ground (arith, value_loop-shrinks fuel [] ch lx v eq, length-ungetc r.1 v.1)
      | inr eq ↦ ground arith
    ]

read-ne-out_of_fuel : (lx : Lexer) → (step_lexer_read lx).0 ≢ out_of_fuel
unfolding step_lexer_read
read-ne-out_of_fuel lx =
    let g = lexer_getc lx in ground (arith, read_value-ne-out_of_fuel lx.lx_lno g.ch g.lx)

read-shrinks :
    (lx : Lexer) (t : Token)
    → (step_lexer_read lx).0 ≡ done t
    → t.tk_type ≢ lexer_eof
    → length (step_lexer_read lx).1.lx_rest < length lx.lx_rest
unfolding step_lexer_read lexer_emit
read-shrinks lx t e ne =
    let g = lexer_getc lx in
    ground (arith, length-getc lx, read_value-shrinks lx.lx_lno g.ch g.lx t)

value_loop-seen :
    (fuel : ℕ) (bf : Bytes) (ch : ℕ) (lx : Lexer)
    → (value_loop fuel bf ch lx).1.lx_seen ≡ lx.lx_seen
unfolding value_loop lexer_error
value_loop-seen zero bf ch lx = refl
value_loop-seen (suc fuel) bf ch lx =
    let g = lexer_getc lx in
    ground (arith, getc-seen lx, value_loop-seen fuel (bf ++ ch ∷ []) g.ch g.lx)

read_value-seen : (lno ch : ℕ) (lx : Lexer) → (read_value lno ch lx).1.lx_seen ≡ lx.lx_seen
unfolding read_value
read_value-seen lno ch lx =
    let fuel = suc (length lx.lx_rest) in
    let r = value_loop fuel [] ch lx in
    let kept = value_loop-seen fuel [] ch lx in
    elim (Result-cases r.0) [
      | inl (v, e) ↦ ground (arith, kept, ungetc-seen r.1 v.1)
      | inr e ↦ ground (arith, kept)
    ]

-- The callback leaves the tokens read so far alone.
pub read-seen : (lx : Lexer) → (step_lexer_read lx).1.lx_seen ≡ lx.lx_seen
unfolding step_lexer_read
read-seen lx =
    let g = lexer_getc lx in ground (arith, getc-seen lx, read_value-seen lx.lx_lno g.ch g.lx)

-- Reading the tokens of a step file ends, whatever the file holds.
pub alloc-ne-out_of_fuel : (buf : Option Bytes) → lexer_alloc step_lexer_read buf ≢ out_of_fuel
unfolding lexer_alloc
alloc-ne-out_of_fuel none = cc
alloc-ne-out_of_fuel (some buf) =
    alloc_loop-ne-out_of_fuel step_lexer_read read-ne-out_of_fuel read-shrinks (suc (length buf))
      (lexer_start buf) (omega arith)
