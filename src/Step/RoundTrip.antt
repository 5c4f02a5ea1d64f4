-- ===== src/Step/RoundTrip.antt =====
-- A step file that `steps_write` wrote, read by `steps_parse`.
pub mod Rows
pub mod Cells
use mathlib.Core.Path.{subst}
use mathlib.Core.List.{Permᴰ}
use robsd.Base.{
  ℕ, zero, suc, ◌+◌, ◌<◌, ◌≤◌, Bool, true, false, List, [], ◌∷◌, ◌++◌, some, Bytes, ℤ, length, map,
  Result, done, ◌≡◌, ◌∙◌, refl, arith, sym, ap, All, append_assoc, append-nil,
}
use robsd.Lexer.{Token, Lexer, lexer_eof, lexer_emit, lexer_peek, lexer_alloc}
use robsd.Lexer.Cursor.{NotAtEof, peek-IsNext}
use robsd.Strtonum.Print.{print_int-cons}
use robsd.Step.{Step, StepFile, steps_append, step_cmp, step_validate}
use robsd.Step.Fields.{initial_step, step_init_lem}
use robsd.Step.Lex.{token_comma, token_newline, step_lexer_read}
use robsd.Step.Lex.Lines.{cell_tokens, line_tokens, lines_tokens}
use robsd.Step.Lex.File.{alloc_lines}
use robsd.Step.Parse.{
  header_loop, steps_parse_header, row_loop, finish_row, steps_parse_row, rows_loop, no_steps,
  parse_tokens, steps_parse,
}
use robsd.Step.Write.{steps_header, steps_sort, steps_write, serialize_all}
use robsd.Step.Stored.{
  Row, IsRow, IsPlain, to_step, cells, line, lines, print_int-IsPlain, serialize_all-to_step,
}
use robsd.Step.RoundTrip.Rows.{IsReady, row_lem, header_lem}
use robsd.Step.RoundTrip.Cells.{names, fill-cells, validate-to_step, cells-LastNonEmpty}

length-cell_tokens :
    (lno : ℕ) (c : Bytes) (ts : List Token) → length ts ≤ length (cell_tokens lno c ts)
length-cell_tokens lno [] ts = omega arith
length-cell_tokens lno (x ∷ c) ts = omega arith

-- A line has a token for each cell at least, its comma or newline.
length-line_tokens :
    (lno : ℕ) (cs : List Bytes) (ts : List Token)
    → (length cs ≤ length (line_tokens lno cs ts)) × (length ts < length (line_tokens lno cs ts))
length-line_tokens lno [] ts = (omega arith, omega arith)
length-line_tokens lno (c ∷ []) ts =
    let h = length-cell_tokens lno c (lexer_emit lno token_newline ∷ ts) in
    (omega (arith, h), omega (arith, h))
length-line_tokens lno (c ∷ d ∷ cs) ts =
    let rest = length-line_tokens lno (d ∷ cs) ts in
    let more = lexer_emit lno token_comma ∷ line_tokens lno (d ∷ cs) ts in
    let h = length-cell_tokens lno c more in (omega (arith, h, rest.0), omega (arith, h, rest.1))

length-lines_tokens : (lno : ℕ) (ls : List (List Bytes)) → length ls < length (lines_tokens lno ls)
length-lines_tokens lno [] = omega arith
length-lines_tokens lno (l ∷ ls) = omega (
  arith,
  length-lines_tokens (suc lno) ls,
  (length-line_tokens lno l (lines_tokens (suc lno) ls)).1,
)

-- A row begins with a token that is not the end of the file.
peek_row :
    (lx : Lexer) (lno : ℕ) (r : Row) (ts : List Token)
    → IsReady lx (line_tokens lno (cells r) ts)
    → lexer_peek lx lexer_eof ≡ (false, lx)
unfolding lexer_emit
peek_row lx lno r ts h =
    let (c, s, e) = print_int-cons r.id in
    let a = rw e at h.ahead in
    peek-IsNext lx _ _ lexer_eof (record { before_eof = h.not_at_eof; ahead = a })

peek_end :
    (lx : Lexer) (lno : ℕ) → IsReady lx (lines_tokens lno []) → lexer_peek lx lexer_eof ≡ (true, lx)
unfolding lexer_emit
peek_end lx lno h =
    peek-IsNext lx _ _ lexer_eof (record { before_eof = h.not_at_eof; ahead = h.ahead })

parse_row_lem :
    (sf : StepFile) (lx : Lexer) (lno : ℕ) (r : Row) (ts : List Token)
    → IsRow r
    → sf.columns ≡ names
    → IsReady lx (line_tokens lno (cells r) ts)
    → (lx' : Lexer) × (steps_parse_row sf lx ≡ done (steps_append sf (to_step r), lx'))
      × IsReady lx' ts
unfolding steps_parse_row finish_row
parse_row_lem sf lx lno r ts p c h =
    let enough : 9 < suc (length lx.lx_ahead) =
      rw h.ahead (omega (arith, (length-line_tokens lno (cells r) ts).0)) in
    let (lx', e, h') =
      row_lem (suc (length lx.lx_ahead)) names initial_step (to_step r) 0 lx lno (cells r) ts enough
        (cells-LastNonEmpty r) (fill-cells r p) h in
    (
      lx',
      rw (steps_parse_row, step_init_lem) (rw (c, e) (rw (finish_row, validate-to_step r) refl)),
      h',
    )

rows_lem :
    (fuel : ℕ) (sf : StepFile) (lx : Lexer) (lno : ℕ) (rs : List Row)
    → length rs < fuel
    → All IsRow rs
    → sf.columns ≡ names
    → IsReady lx (lines_tokens lno (map cells rs))
    → rows_loop fuel sf lx ≡ done (record { columns = names; steps = sf.steps ++ map to_step rs })
unfolding rows_loop
rows_lem zero sf lx lno rs f p c h = absurd (omega arith)
rows_lem (suc fuel) sf lx lno [] f p c h =
    rw (rows_loop, peek_end lx lno h) (ap done (rw (append-nil, ← c) refl))
rows_lem (suc fuel) sf lx lno (r ∷ rs) f (p, ps) c h =
    let ts = lines_tokens (suc lno) (map cells rs) in
    let (lx', e, h') = parse_row_lem sf lx lno r ts p c h in
    rw (rows_loop, peek_row lx lno r ts h)
      (rw (peek_row lx lno r ts h) (
        rw e (
          rows_lem fuel (steps_append sf (to_step r)) lx' (suc lno) rs (omega arith) ps c h'
          ∙ ap (λ l. done (record { columns = names; steps = l }))
              (append_assoc sf.steps (to_step r ∷ []) (map to_step rs)))))

All-Permᴰ : (P : Step → Type 0) {xs ys : List Step} → Permᴰ xs ys → All P xs → All P ys
All-Permᴰ P Permᴰ.nil h = h
All-Permᴰ P (Permᴰ.cons e d) (p, h) = (subst P e p, All-Permᴰ P d h)
All-Permᴰ P (Permᴰ.swap e e') (p, (q, h)) = (subst P e' q, (subst P e p, h))
All-Permᴰ P (Permᴰ.trans d d') h = All-Permᴰ P d' (All-Permᴰ P d h)

-- A step whose values a file can hold.
abbrev pub IsStored : Step → Type 0
IsStored st = (r : Row) × (st ≡ to_step r) × IsRow r

stored_rows :
    (sts : List Step) → All IsStored sts → (rs : List Row) × (sts ≡ map to_step rs) × All IsRow rs
stored_rows [] h = ([], refl, tt)
stored_rows (st ∷ sts) ((r, e, p), h) =
    let (rs, es, ps) = stored_rows sts h in (r ∷ rs, rw (e, es) refl, (p, ps))

length-cells : (rs : List Row) → length (map cells rs) ≡ length rs
length-cells [] = refl
length-cells (r ∷ rs) = ap suc (length-cells rs)

cells-All : (rs : List Row) → All IsRow rs → All (All IsPlain) (map cells rs)
cells-All [] h = tt
cells-All (r ∷ rs) (p, h) =
    let row : All IsPlain (cells r) = (
      print_int-IsPlain r.id,
      (
        p.name_plain,
        (
          print_int-IsPlain r.exit,
          (
            print_int-IsPlain r.duration,
            (
              print_int-IsPlain r.delta,
              (
                p.log_plain,
                (p.user_plain, (print_int-IsPlain r.time, (print_int-IsPlain r.skip, tt))),
              ),
            ),
          ),
        ),
      ),
    ) in
    (row, cells-All rs h)

names-All : All IsPlain names
names-All = ground arith

header_lines : (ls : List (List Bytes)) → steps_header ++ lines ls ≡ lines (names ∷ ls)
unfolding steps_header
header_lines ls = refl

peek_header :
    (lx : Lexer) (ts : List Token)
    → IsReady lx (line_tokens 1 names ts)
    → lexer_peek lx lexer_eof ≡ (false, lx)
unfolding lexer_emit
peek_header lx ts h =
    peek-IsNext lx _ _ lexer_eof (record { before_eof = h.not_at_eof; ahead = h.ahead })

-- The rows of a file, parsed.
parse_rows :
    (rs : List Row)
    → All IsRow rs
    → steps_parse (some (lines (names ∷ map cells rs)))
      ≡ done (record { columns = names; steps = map to_step rs })
unfolding steps_parse parse_tokens steps_parse_header
parse_rows rs p =
    let ls = map cells rs in
    let (lx, alloc, ahead, seen) = alloc_lines (names ∷ ls) (names-All, cells-All rs p) in
    let ready : IsReady lx (line_tokens 1 names (lines_tokens 2 ls)) = record {
      not_at_eof = rw seen tt;
      ahead = ahead;
    } in
    let fuel = suc (length lx.lx_ahead) in
    let enough : 9 < fuel =
      rw ahead (omega (arith, (length-line_tokens 1 names (lines_tokens 2 ls)).0)) in
    let (lx', e, ready') =
      header_lem fuel no_steps lx 1 names (lines_tokens 2 ls) enough (ground arith) ready in
    let enough' : length rs < suc (length lx'.lx_ahead) =
      rw ready'.ahead (omega (arith, length-lines_tokens 2 ls, length-cells rs)) in
    rw (steps_parse, alloc)
      (rw (parse_tokens, steps_parse_header, peek_header lx _ ready)
        (rw e (rows_lem _ _ lx' 2 rs enough' p refl ready')))

-- For steps whose values a file can hold, whatever order the sort puts them in: `steps_write`
-- succeeds, and `steps_parse` reads what it wrote back as the sorted steps, under the columns of the
-- table.
pub steps_parse-steps_write :
    (sort : (Step → Step → ℤ) → List Step → List Step) (sf : StepFile)
    → Permᴰ sf.steps (sort step_cmp sf.steps)
    → All IsStored sf.steps
    → (out : Bytes) × ((steps_write sort sf).0 ≡ done out)
      × (steps_parse (some out)
          ≡ done (record { columns = names; steps = (steps_write sort sf).1.steps }))
unfolding steps_write steps_sort
steps_parse-steps_write sort sf d h =
    let (rs, e, p) = stored_rows (sort step_cmp sf.steps) (All-Permᴰ IsStored d h) in
    (
      steps_header ++ lines (map cells rs),
      rw e (serialize_all-to_step rs steps_header p),
      rw (header_lines (map cells rs), e) (parse_rows rs p),
    )
