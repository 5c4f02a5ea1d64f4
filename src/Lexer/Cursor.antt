-- ===== src/Lexer/Cursor.antt =====
-- The walk over the tokens, `lexer_next`, `lexer_expect`, `lexer_peek` and `lexer_if` of lexer.c.
use robsd.Base.{
  ℕ, List, [], ◌∷◌, none, some, ◌≡◌, ◌≢◌, refl, arith, ◌==◌, if◌then◌else◌, true, false, Bool-cases,
  ◌⊎◌, inl, inr,
}
use robsd.Lexer.{
  Token, Lexer, lexer_eof, lexer_next, lexer_prev, lexer_error, lexer_expect, lexer_peek, lexer_if,
}

-- The pointer does not stand at the token of type `lexer_eof`.
abbrev pub NotAtEof : List Token → Type 0
NotAtEof [] = Unit
NotAtEof (t ∷ seen) = t.tk_type ≢ lexer_eof

-- The token `t` comes next.
pub record IsNext (lx : Lexer) (t : Token) (ts : List Token) : Type 0 where
  pub before_eof : NotAtEof lx.lx_seen
  pub ahead : lx.lx_ahead ≡ t ∷ ts

abbrev pub advance : Lexer → Token → List Token → Lexer
advance lx t ts = record lx { lx_seen = t ∷ lx.lx_seen; lx_ahead = ts }

next_split :
    (lx : Lexer) (seen : List Token) (t : Token) (ts : List Token)
    → lx.lx_seen ≡ seen
    → NotAtEof seen
    → lx.lx_ahead ≡ t ∷ ts
    → lexer_next lx ≡ (some t, advance lx t ts)
unfolding lexer_next
next_split lx [] t ts e h a = rw (e, a) refl
next_split lx (u ∷ seen) t ts e h a = ground arith

pub next-IsNext :
    (lx : Lexer) (t : Token) (ts : List Token)
    → IsNext lx t ts
    → lexer_next lx ≡ (some t, advance lx t ts)
next-IsNext lx t ts h = next_split lx lx.lx_seen t ts refl h.before_eof h.ahead

pub expect-IsNext :
    (lx : Lexer) (t : Token) (ts : List Token) (type : ℕ)
    → IsNext lx t ts
    → lexer_expect lx type ≡ (
        if t.tk_type == type
        then (some t, advance lx t ts)
        else (none, lexer_error (advance lx t ts)))
unfolding lexer_expect
expect-IsNext lx t ts type h = ground (arith, next-IsNext lx t ts h)

pub if-IsNext :
    (lx : Lexer) (t : Token) (ts : List Token) (type : ℕ)
    → IsNext lx t ts
    → lexer_if lx type ≡ (if t.tk_type == type then (some t, advance lx t ts) else (none, lx))
unfolding lexer_if lexer_prev
if-IsNext lx t ts type h = ground (arith, next-IsNext lx t ts h, h.ahead)

pub peek-IsNext :
    (lx : Lexer) (t : Token) (ts : List Token) (type : ℕ)
    → IsNext lx t ts
    → lexer_peek lx type ≡ (t.tk_type == type, lx)
unfolding lexer_peek lexer_prev
peek-IsNext lx t ts type h = ground (arith, next-IsNext lx t ts h, h.ahead)

-- The walk when the token `t` comes next and has the type that is asked for.
pub record Matches (lx : Lexer) (t : Token) (ts : List Token) (type : ℕ) : Type 0 where
  pub same_type : t.tk_type ≡ type
  pub expects : lexer_expect lx type ≡ (some t, advance lx t ts)
  pub peeks : lexer_peek lx type ≡ (true, lx)
  pub takes : lexer_if lx type ≡ (some t, advance lx t ts)

-- And when it has another.
pub record Differs (lx : Lexer) (t : Token) (ts : List Token) (type : ℕ) : Type 0 where
  pub other_type : t.tk_type ≢ type
  pub expects : lexer_expect lx type ≡ (none, lexer_error (advance lx t ts))
  pub peeks : lexer_peek lx type ≡ (false, lx)
  pub leaves : lexer_if lx type ≡ (none, lx)

-- Where a token comes next, `lexer_next` returns it and moves behind it. If it has the type that is
-- asked for, `lexer_expect` and `lexer_if` do the same, and `lexer_peek` says so without moving; if it
-- has another type, `lexer_expect` moves behind it and counts an error, `lexer_if` returns no token, and
-- neither `lexer_if` nor `lexer_peek` moves.
pub walk-IsNext :
    (lx : Lexer) (t : Token) (ts : List Token) (type : ℕ)
    → IsNext lx t ts
    → (lexer_next lx ≡ (some t, advance lx t ts)) × (Matches lx t ts type ⊎ Differs lx t ts type)
walk-IsNext lx t ts type h =
    let e = expect-IsNext lx t ts type h in
    let p = peek-IsNext lx t ts type h in
    let i = if-IsNext lx t ts type h in
    (
      next-IsNext lx t ts h,
      elim (Bool-cases (t.tk_type == type)) [
        | inl same ↦ inl (record {
          same_type = ground arith;
          expects = rw same at e;
          peeks = rw same at p;
          takes = rw same at i;
        })
        | inr other ↦ inr (record {
          other_type = ground arith;
          expects = rw other at e;
          peeks = rw other at p;
          leaves = rw other at i;
        })
      ],
    )
