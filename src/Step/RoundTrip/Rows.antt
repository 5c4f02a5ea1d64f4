-- ===== src/Step/RoundTrip/Rows.antt =====
-- Parsing the tokens of written lines.
use robsd.Base.{
  ℕ, zero, suc, ◌+◌, ◌<◌, List, [], ◌∷◌, ◌++◌, Bytes, length, Result, done, ◌>>=◌, ◌≡◌, ◌≢◌, arith,
  refl, append_assoc, inl, inr, Result-cases,
}
use robsd.Lexer.{Token, Lexer, lexer_eof, lexer_emit}
use robsd.Lexer.Cursor.{NotAtEof, IsNext, advance, expect-IsNext, if-IsNext}
use robsd.Step.{Step, StepFile}
use robsd.Step.Lex.{token_comma, token_value, token_newline}
use robsd.Step.Lex.Lines.{value_of_line, line_tokens}
use robsd.Step.Parse.{row_value, row_round, row_loop, header_loop}

-- The walk stands before the tokens `ts`.
pub record IsReady (lx : Lexer) (ts : List Token) : Type 0 where
  pub not_at_eof : NotAtEof lx.lx_seen
  pub ahead : lx.lx_ahead ≡ ts

ready-IsNext : {lx : Lexer} {t : Token} {ts : List Token} → IsReady lx (t ∷ ts) → IsNext lx t ts
ready-IsNext r = record { before_eof = r.not_at_eof; ahead = r.ahead }

advance-IsReady :
    (lx : Lexer) (t : Token) (ts : List Token)
    → t.tk_type ≢ lexer_eof
    → IsReady (advance lx t ts) ts
advance-IsReady lx t ts ne = record { not_at_eof = ne; ahead = refl }

-- A loop that gives `a`, and leaves the walk before the tokens `ts`.
abbrev pub Gives : {A : Type 0} → Result (A × Lexer) → A → List Token → Type 0
Gives r a ts = (lx' : Lexer) × (r ≡ done (a, lx')) × IsReady lx' ts

abbrev pub AllNonEmpty : List Bytes → Type 0
AllNonEmpty [] = ⊥
AllNonEmpty (c ∷ []) = c ≢ []
AllNonEmpty (c ∷ cs) = (c ≢ []) × AllNonEmpty cs

pub header_lem :
    (fuel : ℕ) (sf : StepFile) (lx : Lexer) (lno : ℕ) (cells : List Bytes) (more : List Token)
    → length cells < fuel
    → AllNonEmpty cells
    → IsReady lx (line_tokens lno cells more)
    → Gives (header_loop fuel sf lx) (record sf { columns = sf.columns ++ cells }) more
unfolding header_loop lexer_emit
header_lem zero sf lx lno cells more f n r = absurd (omega arith)
header_lem (suc fuel) sf lx lno [] more f n r = absurd n
header_lem (suc fuel) sf lx lno ([] ∷ []) more f n r = absurd (n refl)
header_lem (suc fuel) sf lx lno ((x ∷ v) ∷ []) more f n r =
    let t = value_of_line lno (x ∷ v) in
    let u = lexer_emit lno token_newline in
    let lx1 = advance lx t (u ∷ more) in
    let lx2 = advance lx1 u more in
    let r1 = advance-IsReady lx t (u ∷ more) (omega arith) in
    (
      lx2,
      ground (
        arith,
        expect-IsNext lx t (u ∷ more) token_value (ready-IsNext r),
        if-IsNext lx1 u more token_newline (ready-IsNext r1),
      ),
      advance-IsReady lx1 u more (omega arith),
    )
header_lem (suc fuel) sf lx lno ([] ∷ d ∷ cs) more f n r = absurd (n.0 refl)
header_lem (suc fuel) sf lx lno ((x ∷ v) ∷ d ∷ cs) more f n r =
    let t = value_of_line lno (x ∷ v) in
    let u = lexer_emit lno token_comma in
    let ts = line_tokens lno (d ∷ cs) more in
    let lx1 = advance lx t (u ∷ ts) in
    let lx2 = advance lx1 u ts in
    let r1 = advance-IsReady lx t (u ∷ ts) (omega arith) in
    let sf' = record sf { columns = sf.columns ++ (x ∷ v) ∷ [] } in
    let (lx', e, r') =
      header_lem fuel sf' lx2 lno (d ∷ cs) more (omega arith) n.1
        (advance-IsReady lx1 u ts (omega arith)) in
    (
      lx',
      ground (
        arith,
        expect-IsNext lx t (u ∷ ts) token_value (ready-IsNext r),
        if-IsNext lx1 u ts token_newline (ready-IsNext r1),
        expect-IsNext lx1 u ts token_comma (ready-IsNext r1),
        e,
        append_assoc sf.columns ((x ∷ v) ∷ []) (d ∷ cs),
      ),
      r',
    )

abbrev pub LastNonEmpty : List Bytes → Type 0
LastNonEmpty [] = ⊥
LastNonEmpty (c ∷ []) = c ≢ []
LastNonEmpty (c ∷ cs) = LastNonEmpty cs

-- The step that the cells give, from column `col` on; an empty cell sets nothing.
unfoldable pub fill : List Bytes → Step → ℕ → List Bytes → Result Step
fill columns st col [] = done st
fill columns st col ([] ∷ cs) = fill columns st (col + 1) cs
fill columns st col ((x ∷ v) ∷ cs) =
    row_value columns st col (x ∷ v) >>= λ st'. fill columns st' (col + 1) cs

round_last :
    (next : Step → ℕ → Lexer → Result (Step × Lexer)) (columns : List Bytes) (st st' : Step)
    (col : ℕ) (lx : Lexer) (lno : ℕ) (v : Bytes) (more : List Token)
    → row_value columns st col v ≡ done st'
    → IsReady lx (value_of_line lno v ∷ lexer_emit lno token_newline ∷ more)
    → Gives (row_round next columns st col lx) st' more
unfolding row_round lexer_emit
round_last next columns st st' col lx lno v more e r =
    let t = value_of_line lno v in
    let u = lexer_emit lno token_newline in
    let lx1 = advance lx t (u ∷ more) in
    let lx2 = advance lx1 u more in
    let r1 = advance-IsReady lx t (u ∷ more) (omega arith) in
    (
      lx2,
      ground (
        arith,
        expect-IsNext lx t (u ∷ more) token_value (ready-IsNext r),
        e,
        if-IsNext lx1 u more token_newline (ready-IsNext r1),
      ),
      advance-IsReady lx1 u more (omega arith),
    )

round_more :
    (next : Step → ℕ → Lexer → Result (Step × Lexer)) (columns : List Bytes) (st st' : Step)
    (col : ℕ) (lx : Lexer) (lno : ℕ) (v : Bytes) (ts : List Token)
    → row_value columns st col v ≡ done st'
    → IsReady lx (value_of_line lno v ∷ lexer_emit lno token_comma ∷ ts)
    → (lx' : Lexer) × (row_round next columns st col lx ≡ next st' (col + 1) lx') × IsReady lx' ts
unfolding row_round lexer_emit
round_more next columns st st' col lx lno v ts e r =
    let t = value_of_line lno v in
    let u = lexer_emit lno token_comma in
    let lx1 = advance lx t (u ∷ ts) in
    let lx2 = advance lx1 u ts in
    let r1 = advance-IsReady lx t (u ∷ ts) (omega arith) in
    (
      lx2,
      ground (
        arith,
        expect-IsNext lx t (u ∷ ts) token_value (ready-IsNext r),
        e,
        if-IsNext lx1 u ts token_newline (ready-IsNext r1),
        expect-IsNext lx1 u ts token_comma (ready-IsNext r1),
      ),
      advance-IsReady lx1 u ts (omega arith),
    )

no_comma :
    (fuel : ℕ) (columns : List Bytes) (st : Step) (col : ℕ) (lx : Lexer) (lno : ℕ) (v : Bytes)
    (ts : List Token)
    → IsReady lx (value_of_line lno v ∷ ts)
    → row_loop (suc fuel) columns st col lx ≡ row_round (row_loop fuel columns) columns st col lx
unfolding row_loop lexer_emit
no_comma fuel columns st col lx lno v ts r =
    ground (arith, if-IsNext lx (value_of_line lno v) ts token_comma (ready-IsNext r))

comma_skip :
    (fuel : ℕ) (columns : List Bytes) (st : Step) (col : ℕ) (lx : Lexer) (lno : ℕ) (ts : List Token)
    → IsReady lx (lexer_emit lno token_comma ∷ ts)
    → (lx' : Lexer) × (row_loop (suc fuel) columns st col lx
        ≡ row_loop fuel columns st (col + 1) lx')
      × IsReady lx' ts
unfolding row_loop lexer_emit
comma_skip fuel columns st col lx lno ts r =
    let u = lexer_emit lno token_comma in
    (
      advance lx u ts,
      ground (arith, if-IsNext lx u ts token_comma (ready-IsNext r)),
      advance-IsReady lx u ts (omega arith),
    )

-- A row of cells whose last is not empty is read to the step that they give.
pub row_lem :
    (fuel : ℕ) (columns : List Bytes) (st st' : Step) (col : ℕ) (lx : Lexer) (lno : ℕ)
    (cells : List Bytes) (more : List Token)
    → length cells < fuel
    → LastNonEmpty cells
    → fill columns st col cells ≡ done st'
    → IsReady lx (line_tokens lno cells more)
    → Gives (row_loop fuel columns st col lx) st' more
unfolding fill
row_lem zero columns st st' col lx lno cells more f n e r = absurd (omega arith)
row_lem (suc fuel) columns st st' col lx lno [] more f n e r = absurd n
row_lem (suc fuel) columns st st' col lx lno ([] ∷ []) more f n e r = absurd (n refl)
row_lem (suc fuel) columns st st' col lx lno ((x ∷ v) ∷ []) more f n e r =
    rw (no_comma fuel columns st col lx lno (x ∷ v) _ r)
      (round_last (row_loop fuel columns) columns st st' col lx lno (x ∷ v) more (ground arith) r)
row_lem (suc fuel) columns st st' col lx lno ([] ∷ d ∷ cs) more f n e r =
    let (lx1, step, r1) = comma_skip fuel columns st col lx lno _ r in
    rw step (row_lem fuel columns st st' (col + 1) lx1 lno (d ∷ cs) more (omega arith) n e r1)
row_lem (suc fuel) columns st st' col lx lno ((x ∷ v) ∷ d ∷ cs) more f n e r =
    elim (Result-cases (row_value columns st col (x ∷ v))) [
      | inr bad ↦ absurd (ground arith)
      | inl (st1, e1) ↦
          let (lx1, step, r1) =
            round_more (row_loop fuel columns) columns st st1 col lx lno (x ∷ v) _ e1 r in
          rw (no_comma fuel columns st col lx lno (x ∷ v) _ r, step)
            (row_lem fuel columns st1 st' (col + 1) lx1 lno (d ∷ cs) more (omega arith) n
              (ground arith) r1)
    ]
