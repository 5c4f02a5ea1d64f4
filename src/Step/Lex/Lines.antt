-- ===== src/Step/Lex/Lines.antt =====
-- The tokens of a written step file.
use robsd.Base.{
  ℕ, zero, suc, ◌<◌, true, false, ◌||◌, List, [], ◌∷◌, ◌++◌, ◌==◌, if◌then◌else◌, Bytes, drop,
  length, length-append, done, ◌≡◌, ◌≢◌, arith, append_assoc,
}
use robsd.Lexer.{Token, Lexer, lexer_eof, lexer_emit, lexer_getc, lexer_ungetc}
use robsd.Step.Lex.{
  token_comma, token_value, token_newline, value_loop, read_value, step_lexer_read,
}
use robsd.Step.Stored.{IsPlain}

abbrev pub value_of_line : ℕ → Bytes → Token
value_of_line lno v = record (lexer_emit lno token_value) { tk_str = v }

-- An empty cell has no token.
abbrev pub cell_tokens : ℕ → Bytes → List Token → List Token
cell_tokens lno [] ts = ts
cell_tokens lno (c ∷ v) ts = value_of_line lno (c ∷ v) ∷ ts

abbrev pub line_tokens : ℕ → List Bytes → List Token → List Token
line_tokens lno [] ts = lexer_emit lno token_newline ∷ ts
line_tokens lno (c ∷ []) ts = cell_tokens lno c (lexer_emit lno token_newline ∷ ts)
line_tokens lno (c ∷ cs) ts = cell_tokens lno c (lexer_emit lno token_comma ∷ line_tokens lno cs ts)

abbrev pub lines_tokens : ℕ → List (List Bytes) → List Token
lines_tokens lno [] = lexer_emit lno lexer_eof ∷ []
lines_tokens lno (l ∷ ls) = line_tokens lno l (lines_tokens (suc lno) ls)

-- The lexer stands before `rest`, in line `lno`, with the tokens `ts` read.
pub record IsBefore (lx : Lexer) (rest : Bytes) (lno : ℕ) (ts : List Token) : Type 0 where
  pub rest_is : lx.lx_rest ≡ rest
  pub lno_is : lx.lx_lno ≡ suc lno
  pub no_eof : lx.lx_eof ≡ 0
  pub none_seen : lx.lx_seen ≡ []
  pub ahead_is : lx.lx_ahead ≡ ts

pub comma_lem :
    (lx : Lexer) (rest : Bytes) (lno : ℕ) (ts : List Token)
    → IsBefore lx (b',' ∷ rest) lno ts
    → ((step_lexer_read lx).0 ≡ done (lexer_emit (suc lno) token_comma))
      × IsBefore (step_lexer_read lx).1 rest lno ts
unfolding step_lexer_read lexer_getc
comma_lem lx rest lno ts h = ground (arith, h.rest_is, h.lno_is, h.no_eof)

pub newline_lem :
    (lx : Lexer) (rest : Bytes) (lno : ℕ) (ts : List Token)
    → IsBefore lx (b'\n' ∷ rest) lno ts
    → ((step_lexer_read lx).0 ≡ done (lexer_emit (suc lno) token_newline))
      × IsBefore (step_lexer_read lx).1 rest (suc lno) ts
unfolding step_lexer_read lexer_getc
newline_lem lx rest lno ts h = ground (arith, h.rest_is, h.lno_is, h.no_eof)

pub eof_lem :
    (lx : Lexer) (lno : ℕ) (ts : List Token)
    → IsBefore lx [] lno ts
    → ((step_lexer_read lx).0 ≡ done (lexer_emit (suc lno) lexer_eof))
      × ((step_lexer_read lx).1.lx_ahead ≡ ts)
      × ((step_lexer_read lx).1.lx_seen ≡ [])
unfolding step_lexer_read lexer_getc
eof_lem lx lno ts h = ground (arith, h.rest_is, h.lno_is, h.no_eof)

-- The state behind the byte `c` that ends a value.
record IsBehind (lx : Lexer) (c : ℕ) (rest : Bytes) (lno : ℕ) (ts : List Token) : Type 0 where
  rest_is : lx.lx_rest ≡ rest
  back : lx.lx_before ≡ c ∷ drop 1 lx.lx_before
  lno_is : lx.lx_lno ≡ suc (if c == b'\n' then suc lno else lno)
  no_eof : lx.lx_eof ≡ 0
  none_seen : lx.lx_seen ≡ []
  ahead_is : lx.lx_ahead ≡ ts

abbrev pub EndsValue : ℕ → Type 0
EndsValue c = (c == b',' || c == b'\n') ≡ true

getc_plain :
    (lx : Lexer) (x : ℕ) (rest : Bytes) (lno : ℕ) (ts : List Token)
    → x ≢ b'\n'
    → IsBefore lx (x ∷ rest) lno ts
    → ((lexer_getc lx).past_end ≡ false)
      × ((lexer_getc lx).ch ≡ x)
      × IsBefore (lexer_getc lx).lx rest lno ts
unfolding lexer_getc
getc_plain lx x rest lno ts ne h = ground (arith, h.rest_is)

getc_end :
    (lx : Lexer) (c : ℕ) (rest : Bytes) (lno : ℕ) (ts : List Token)
    → EndsValue c
    → IsBefore lx (c ∷ rest) lno ts
    → ((lexer_getc lx).past_end ≡ false)
      × ((lexer_getc lx).ch ≡ c)
      × IsBehind (lexer_getc lx).lx c rest lno ts
unfolding lexer_getc
getc_end lx c rest lno ts e h = ground (arith, h.rest_is)

value_loop_lem :
    (fuel : ℕ) (bf : Bytes) (ch : ℕ) (lx : Lexer) (v : Bytes) (c : ℕ) (rest : Bytes) (lno : ℕ)
    (ts : List Token)
    → length v < fuel
    → IsPlain v
    → EndsValue c
    → IsBefore lx (v ++ c ∷ rest) lno ts
    → ((value_loop fuel bf ch lx).0 ≡ done (bf ++ ch ∷ v, c))
      × IsBehind (value_loop fuel bf ch lx).1 c rest lno ts
unfolding value_loop
value_loop_lem zero bf ch lx v c rest lno ts f p e h = absurd (omega arith)
value_loop_lem (suc fuel) bf ch lx [] c rest lno ts f p e h =
    ground (arith, getc_end lx c rest lno ts e h)
value_loop_lem (suc fuel) bf ch lx (x ∷ v) c rest lno ts f p e h =
    let g = lexer_getc lx in
    let (inside, same, before) = getc_plain lx x (v ++ c ∷ rest) lno ts p.0.1 h in
    let later =
      value_loop_lem fuel (bf ++ ch ∷ []) x g.lx v c rest lno ts (omega arith) p.1 e before in
    ground (arith, inside, same, later, append_assoc bf (ch ∷ []) (x ∷ v))

ungetc_end :
    (lx : Lexer) (c : ℕ) (rest : Bytes) (lno : ℕ) (ts : List Token)
    → IsBehind lx c rest lno ts
    → IsBefore (lexer_ungetc lx c) (c ∷ rest) lno ts
unfolding lexer_ungetc
ungetc_end lx c rest lno ts h = ground (arith, h.rest_is, h.back)

pub read_value_lem :
    (lx : Lexer) (x : ℕ) (v : Bytes) (c : ℕ) (rest : Bytes) (lno : ℕ) (ts : List Token)
    → IsPlain (x ∷ v)
    → EndsValue c
    → IsBefore lx (x ∷ (v ++ c ∷ rest)) lno ts
    → ((step_lexer_read lx).0 ≡ done (value_of_line (suc lno) (x ∷ v)))
      × IsBefore (step_lexer_read lx).1 (c ∷ rest) lno ts
unfolding step_lexer_read read_value
read_value_lem lx x v c rest lno ts p e h =
    let g = lexer_getc lx in
    let (inside, same, before) = getc_plain lx x (v ++ c ∷ rest) lno ts p.0.1 h in
    let fuel = suc (length g.lx.lx_rest) in
    let enough : length v < fuel =
      rw before.rest_is (omega (arith, length-append {0} v (c ∷ rest))) in
    let (value, behind) = value_loop_lem fuel [] x g.lx v c rest lno ts enough p.1 e before in
    let r = value_loop fuel [] x g.lx in
    ground (arith, inside, same, value, p.0, ungetc_end r.1 c rest lno ts behind)
