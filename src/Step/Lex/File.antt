-- ===== src/Step/Lex/File.antt =====
-- `lexer_alloc` on a written step file.
use robsd.Base.{
  ℕ, zero, suc, ◌<◌, List, [], ◌∷◌, ◌++◌, some, Bytes, length, length-append, done, ◌≡◌, ◌≢◌, arith,
  refl, ◌∙◌, ap, All, append_assoc,
}
use robsd.Lexer.{Token, Lexer, lexer_eof, lexer_emit, lexer_alloc, lexer_alloc_loop, lexer_start}
use robsd.Step.Lex.{token_comma, token_newline, step_lexer_read}
use robsd.Step.Lex.Lines.{
  value_of_line, cell_tokens, line_tokens, lines_tokens, IsBefore, EndsValue, comma_lem,
  newline_lem, eof_lem, read_value_lem,
}
use robsd.Step.Stored.{IsPlain, line, lines}

-- The loop of `lexer_alloc` ends with the tokens `ts`.
abbrev EndsWith : ℕ → Lexer → List Token → Type 0
EndsWith fuel lx ts =
    (lx' : Lexer) × (lexer_alloc_loop fuel step_lexer_read lx ≡ done lx')
    × (lx'.lx_ahead ≡ ts)
    × (lx'.lx_seen ≡ [])

-- What is left to do at the text `rest`: with fuel enough the tokens `more` follow.
abbrev Continues : Bytes → ℕ → List Token → Type 0
Continues rest lno more =
    (fuel : ℕ) (lx : Lexer) (ts : List Token)
    → length rest < fuel
    → IsBefore lx rest lno ts
    → EndsWith fuel lx (ts ++ more)

emit-ne-eof : (lno type : ℕ) → type ≢ lexer_eof → (lexer_emit lno type).tk_type ≢ lexer_eof
unfolding lexer_emit
emit-ne-eof lno type h = h

after_token :
    (fuel : ℕ) (lx : Lexer) (t : Token) (rest : Bytes) (lno : ℕ) (ts more : List Token)
    → length rest < fuel
    → (step_lexer_read lx).0 ≡ done t
    → t.tk_type ≢ lexer_eof
    → IsBefore (step_lexer_read lx).1 rest lno ts
    → Continues rest lno more
    → EndsWith (suc fuel) lx (ts ++ t ∷ more)
unfolding lexer_alloc_loop
after_token fuel lx t rest lno ts more h e ne b k =
    let r = step_lexer_read lx in
    let lx1 = record r.1 { lx_ahead = r.1.lx_ahead ++ t ∷ [] } in
    let b' : IsBefore lx1 rest lno (ts ++ t ∷ []) = record {
      rest_is = b.rest_is;
      lno_is = b.lno_is;
      no_eof = b.no_eof;
      none_seen = b.none_seen;
      ahead_is = ap (λ l. l ++ t ∷ []) b.ahead_is;
    } in
    let (lx', done_lem, ahead, seen) = k fuel lx1 (ts ++ t ∷ []) h b' in
    (lx', ground (arith, e, done_lem), ahead ∙ append_assoc ts (t ∷ []) more, seen)

cell-Continues :
    (cell : Bytes) (c : ℕ) (rest : Bytes) (lno : ℕ) (more : List Token)
    → IsPlain cell
    → EndsValue c
    → Continues (c ∷ rest) lno more
    → Continues (cell ++ c ∷ rest) lno (cell_tokens (suc lno) cell more)
cell-Continues [] c rest lno more p e k fuel lx ts h b = k fuel lx ts h b
cell-Continues (x ∷ v) c rest lno more p e k zero lx ts h b = absurd (omega arith)
cell-Continues (x ∷ v) c rest lno more p e k (suc fuel) lx ts h b =
    let (read, before) = read_value_lem lx x v c rest lno ts p e b in
    let enough : length (c ∷ rest) < fuel = omega (arith, length-append {0} v (c ∷ rest)) in
    after_token fuel lx (value_of_line (suc lno) (x ∷ v)) (c ∷ rest) lno ts more enough read
      (emit-ne-eof _ _ (omega arith)) before k

newline-Continues :
    (rest : Bytes) (lno : ℕ) (more : List Token)
    → Continues rest (suc lno) more
    → Continues (b'\n' ∷ rest) lno (lexer_emit (suc lno) token_newline ∷ more)
newline-Continues rest lno more k zero lx ts h b = absurd (omega arith)
newline-Continues rest lno more k (suc fuel) lx ts h b =
    let (read, before) = newline_lem lx rest lno ts b in
    after_token fuel lx (lexer_emit (suc lno) token_newline) rest (suc lno) ts more (omega arith)
      read (emit-ne-eof _ _ (omega arith)) before k

comma-Continues :
    (rest : Bytes) (lno : ℕ) (more : List Token)
    → Continues rest lno more
    → Continues (b',' ∷ rest) lno (lexer_emit (suc lno) token_comma ∷ more)
comma-Continues rest lno more k zero lx ts h b = absurd (omega arith)
comma-Continues rest lno more k (suc fuel) lx ts h b =
    let (read, before) = comma_lem lx rest lno ts b in
    after_token fuel lx (lexer_emit (suc lno) token_comma) rest lno ts more (omega arith) read
      (emit-ne-eof _ _ (omega arith)) before k

line-Continues :
    (cells : List Bytes) (rest : Bytes) (lno : ℕ) (more : List Token)
    → All IsPlain cells
    → Continues rest (suc lno) more
    → Continues (line cells rest) lno (line_tokens (suc lno) cells more)
line-Continues [] rest lno more p k = newline-Continues rest lno more k
line-Continues (c ∷ []) rest lno more p k =
    cell-Continues c b'\n' rest lno _ p.0 refl (newline-Continues rest lno more k)
line-Continues (c ∷ d ∷ cs) rest lno more p k =
    cell-Continues c b',' (line (d ∷ cs) rest) lno _ p.0 refl
      (comma-Continues (line (d ∷ cs) rest) lno _ (line-Continues (d ∷ cs) rest lno more p.1 k))

eof-Continues : (lno : ℕ) → Continues [] lno (lexer_emit (suc lno) lexer_eof ∷ [])
unfolding lexer_alloc_loop lexer_emit
eof-Continues lno zero lx ts h b = absurd (omega arith)
eof-Continues lno (suc fuel) lx ts h b =
    let (read, ahead, seen) = eof_lem lx lno ts b in
    let r = step_lexer_read lx in
    (
      record r.1 { lx_ahead = r.1.lx_ahead ++ lexer_emit (suc lno) lexer_eof ∷ [] },
      ground (arith, read),
      ap (λ l. l ++ lexer_emit (suc lno) lexer_eof ∷ []) ahead,
      seen,
    )

lines-Continues :
    (ls : List (List Bytes)) (lno : ℕ)
    → All (All IsPlain) ls
    → Continues (lines ls) lno (lines_tokens (suc lno) ls)
lines-Continues [] lno p = eof-Continues lno
lines-Continues (l ∷ ls) lno p =
    line-Continues l (lines ls) lno (lines_tokens (suc (suc lno)) ls) p.0
      (lines-Continues ls (suc lno) p.1)

-- The tokens of lines of cells: for each cell that is not empty its value, and for each comma and
-- newline one token, with the number of its line.
pub alloc_lines :
    (ls : List (List Bytes))
    → All (All IsPlain) ls
    → (lx : Lexer) × (lexer_alloc step_lexer_read (some (lines ls)) ≡ done lx)
      × (lx.lx_ahead ≡ lines_tokens 1 ls)
      × (lx.lx_seen ≡ [])
unfolding lexer_alloc
alloc_lines ls p =
    lines-Continues ls 0 p (suc (length (lines ls))) (lexer_start (lines ls)) [] (omega arith)
      (record { rest_is = refl; lno_is = refl; no_eof = refl; none_seen = refl; ahead_is = refl })
