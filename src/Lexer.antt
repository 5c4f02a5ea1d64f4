-- ===== src/Lexer.antt =====
-- The lexer of lexer.c. First `lexer_alloc` turns the bytes of a file into a list of tokens by a
-- callback, which reads bytes by `lexer_getc` and `lexer_ungetc`; then the parsers walk that list
-- by `lexer_next`, `lexer_expect`, `lexer_peek` and `lexer_if`.
--
-- An offset into a buffer is a pair of lists: the bytes behind it, nearest first, and the bytes
-- ahead. So is the pointer `lx_tk` into the list of tokens: it points to the first of `lx_seen`,
-- and is NULL when that is empty. A token's type is a number, as in the C code. What a message says
-- is not kept: `lexer_error` counts it.
pub mod Cursor
pub mod Input
pub mod Open
use robsd.Base.{
  ℕ, zero, suc, ◌+◌, ◌-◌, Bool, true, false, not, ◌&&◌, List, [], ◌∷◌, ◌++◌, Option, none, some,
  ltb, ◌==◌, if◌then◌else◌, Bytes, length, ℤ, pos, Result, done, failed, out_of_fuel,
}

pub record Token : Type 0 where
  pub tk_type : ℕ
  pub tk_lno : ℕ
  pub tk_str : Bytes
  pub tk_int : ℤ

abbrev pub lexer_eof : ℕ
lexer_eof = 0x7fffffff

pub record Lexer : Type 0 where
  pub lx_seen : List Token
  pub lx_ahead : List Token
  pub lx_before : Bytes
  pub lx_rest : Bytes
  pub lx_lno : ℕ
  pub lx_err : ℕ
  pub lx_eof : ℕ

-- The state in which `lexer_alloc` starts to read a file.
abbrev pub lexer_start : Bytes → Lexer
lexer_start buf = record {
  lx_seen = [];
  lx_ahead = [];
  lx_before = [];
  lx_rest = buf;
  lx_lno = 1;
  lx_err = 0;
  lx_eof = 0;
}

-- `lexer_emit` with a state of line `lno`; the fields that it does not set are zero.
unfoldable pub lexer_emit : ℕ → ℕ → Token
lexer_emit lno type = record { tk_type = type; tk_lno = lno; tk_str = []; tk_int = pos 0 }

-- What `lexer_getc` gives: its result (`true` for 1), the byte that it stores, and the new state.
pub record Getc : Type 0 where
  pub past_end : Bool
  pub ch : ℕ
  pub lx : Lexer

getc_from : Lexer → Bytes → Getc
getc_from lx [] = record {
  past_end = not (lx.lx_eof == 0);
  ch = 0;
  lx = record lx { lx_eof = lx.lx_eof + 1 };
}
getc_from lx (c ∷ rest) = record {
  past_end = false;
  ch = c;
  lx = record lx {
    lx_before = c ∷ lx.lx_before;
    lx_rest = rest;
    lx_lno = if c == b'\n' then lx.lx_lno + 1 else lx.lx_lno;
  };
}

unfoldable pub lexer_getc : Lexer → Getc
unfolding getc_from
lexer_getc lx = getc_from lx lx.lx_rest

step_back : Lexer → Bytes → Lexer
step_back lx [] = lx
step_back lx (b ∷ before) = record lx { lx_before = before; lx_rest = b ∷ lx.lx_rest }

unfoldable pub lexer_ungetc : Lexer → ℕ → Lexer
unfolding step_back
lexer_ungetc lx c =
    if ltb 0 lx.lx_eof
    then lx
    else step_back
        (record lx { lx_lno = if c == b'\n' && ltb 1 lx.lx_lno then lx.lx_lno - 1 else lx.lx_lno })
        lx.lx_before

unfoldable pub lexer_error : Lexer → Lexer
lexer_error lx = record lx { lx_err = lx.lx_err + 1 }

-- The loop of `lexer_alloc`: the callback's tokens up to the one of type `lexer_eof`. A callback
-- that returns NULL is `failed`, and makes `lexer_alloc` fail.
unfoldable pub lexer_alloc_loop : ℕ → (Lexer → Result Token × Lexer) → Lexer → Result Lexer
lexer_alloc_loop zero read lx = out_of_fuel
lexer_alloc_loop (suc fuel) read lx =
    let r = read lx in
    elim r.0 [
      | failed ↦ failed
      | out_of_fuel ↦ out_of_fuel
      | done tk ↦
          let lx' = record r.1 { lx_ahead = r.1.lx_ahead ++ tk ∷ [] } in
          let rest = lexer_alloc_loop fuel read lx' in
          if tk.tk_type == lexer_eof then done lx' else rest
    ]

-- `lexer_alloc` on the bytes of the file, or `none` where it cannot be read. Each round but the last
-- takes a byte, if the callback does.
unfoldable pub lexer_alloc : (Lexer → Result Token × Lexer) → Option Bytes → Result Lexer
lexer_alloc read none = failed
lexer_alloc read (some buf) = lexer_alloc_loop (suc (length buf)) read (lexer_start buf)

-- `lexer_next`: the token, or `none` for the result 0. A walk past the last token would make the
-- pointer NULL, and the walk would begin anew.
next_ahead : Lexer → List Token → Option Token × Lexer
next_ahead lx [] = (none, lx)
next_ahead lx (t ∷ ahead) = (some t, record lx { lx_seen = t ∷ lx.lx_seen; lx_ahead = ahead })

rewind : List Token → List Token → List Token
rewind [] acc = acc
rewind (t ∷ ts) acc = rewind ts (t ∷ acc)

next_behind : Lexer → Token → List Token → Option Token × Lexer
next_behind lx t [] = (none, record lx { lx_seen = []; lx_ahead = rewind lx.lx_seen [] })
next_behind lx t (u ∷ ahead) = (some u, record lx { lx_seen = u ∷ lx.lx_seen; lx_ahead = ahead })

next_from : Lexer → List Token → Option Token × Lexer
unfolding next_ahead next_behind
next_from lx [] = next_ahead lx lx.lx_ahead
next_from lx (t ∷ seen) =
    if t.tk_type == lexer_eof then (some t, lx) else next_behind lx t lx.lx_ahead

unfoldable pub lexer_next : Lexer → Option Token × Lexer
unfolding next_from next_ahead next_behind rewind
lexer_next lx = next_from lx lx.lx_seen

-- `lexer_back`
unfoldable pub lexer_back : Lexer → Option Token
lexer_back lx = elim lx.lx_seen [ [] ↦ none | t ∷ seen ↦ some t ]

-- `lx->lx_tk = LIST_PREV(tk)`, where `tk` is the token under the pointer
to_prev : Lexer → List Token → Lexer
to_prev lx [] = lx
to_prev lx (t ∷ seen) = record lx { lx_seen = seen; lx_ahead = t ∷ lx.lx_ahead }

unfoldable pub lexer_prev : Lexer → Lexer
unfolding to_prev
lexer_prev lx = to_prev lx lx.lx_seen

unfoldable pub lexer_expect : Lexer → ℕ → Option Token × Lexer
lexer_expect lx type =
    let r = lexer_next lx in
    elim r.0 [
      | none ↦ r
      | some tk ↦ if tk.tk_type == type then (some tk, r.1) else (none, lexer_error r.1)
    ]

unfoldable pub lexer_peek : Lexer → ℕ → Bool × Lexer
lexer_peek lx type =
    let r = lexer_next lx in
    elim r.0 [ none ↦ (false, r.1) | some tk ↦ (tk.tk_type == type, lexer_prev r.1) ]

unfoldable pub lexer_if : Lexer → ℕ → Option Token × Lexer
lexer_if lx type =
    let r = lexer_next lx in
    elim r.0 [
      | none ↦ r
      | some tk ↦ if tk.tk_type == type then (some tk, r.1) else (none, lexer_prev r.1)
    ]
