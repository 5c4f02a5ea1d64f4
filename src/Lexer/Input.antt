-- ===== src/Lexer/Input.antt =====
-- Reading bytes: `lexer_getc` and `lexer_ungetc` of lexer.c, and the end of the loop of
-- `lexer_alloc`.
use robsd.Base.{
  Result, done, ℕ, zero, suc, ◌+◌, ◌<◌, ◌≤◌, [], ◌∷◌, ◌++◌, ◌≡◌, ◌≢◌, refl, arith, ◌==◌,
  if◌then◌else◌, Bytes, length, out_of_fuel, Result-cases, inl, inr,
}
use robsd.Lexer.{Token, Lexer, lexer_eof, lexer_getc, lexer_ungetc, lexer_alloc_loop, lexer_start}

abbrev pub newlines : Bytes → ℕ
newlines [] = 0
newlines (c ∷ cs) = (if c == b'\n' then 1 else 0) + newlines cs

-- The bytes of the file, in order.
abbrev pub unspool : Bytes → Bytes → Bytes
unspool [] rest = rest
unspool (b ∷ before) rest = unspool before (b ∷ rest)

-- The lexer stands somewhere in the file `buf`, and its line number is that of the next byte.
pub record IsAt (buf : Bytes) (lx : Lexer) : Type 0 where
  pub input : unspool lx.lx_before lx.lx_rest ≡ buf
  pub counted : lx.lx_lno ≡ suc (newlines lx.lx_before)

pub start-IsAt : (buf : Bytes) → IsAt buf (lexer_start buf)
start-IsAt buf = record { input = refl; counted = refl }

pub getc-IsAt : {buf : Bytes} {lx : Lexer} → IsAt buf lx → IsAt buf (lexer_getc lx).lx
unfolding lexer_getc
getc-IsAt h = ground arith

pub ungetc-IsAt :
    {buf : Bytes} (lx : Lexer) (c : ℕ) (before : Bytes)
    → lx.lx_before ≡ c ∷ before
    → IsAt buf lx
    → IsAt buf (lexer_ungetc lx c)
unfolding lexer_ungetc
ungetc-IsAt lx c before e h = ground arith

-- Within the file, giving a byte back undoes reading it.
pub ungetc-getc :
    {buf : Bytes} (lx : Lexer) (c : ℕ) (rest : Bytes)
    → IsAt buf lx
    → lx.lx_eof ≡ 0
    → lx.lx_rest ≡ c ∷ rest
    → ((lexer_getc lx).ch ≡ c) × (lexer_ungetc (lexer_getc lx).lx c ≡ lx)
unfolding lexer_getc lexer_ungetc
ungetc-getc lx c rest h e r = ground arith

-- A callback that returns, and that hands out a token other than the last only by consuming input makes the loop end:
-- fuel above the number of bytes left is enough.
pub alloc_loop-ne-out_of_fuel :
    (read : Lexer → Result Token × Lexer)
    → ((lx : Lexer) → (read lx).0 ≢ out_of_fuel)
    → ((lx : Lexer) (t : Token)
        → (read lx).0 ≡ done t
        → t.tk_type ≢ lexer_eof
        → length (read lx).1.lx_rest < length lx.lx_rest)
    → (fuel : ℕ) (lx : Lexer) → length lx.lx_rest < fuel
    → lexer_alloc_loop fuel read lx ≢ out_of_fuel
unfolding lexer_alloc_loop
alloc_loop-ne-out_of_fuel read ends shrinks zero lx h = absurd (omega arith)
alloc_loop-ne-out_of_fuel read ends shrinks (suc fuel) lx h = elim (Result-cases (read lx).0) [
  | inl (t, e) ↦
      let lx' = record (read lx).1 { lx_ahead = (read lx).1.lx_ahead ++ t ∷ [] } in
      ground (arith, shrinks lx t e, alloc_loop-ne-out_of_fuel read ends shrinks fuel lx')
  | inr e ↦ ground (arith, ends lx)
]

pub length-getc :
    (lx : Lexer)
    → (lexer_getc lx).ch ≢ 0
    → suc (length (lexer_getc lx).lx.lx_rest) ≡ length lx.lx_rest
unfolding lexer_getc
length-getc lx h = ground arith

pub length-ungetc :
    (lx : Lexer) (c : ℕ) → length (lexer_ungetc lx c).lx_rest ≤ suc (length lx.lx_rest)
unfolding lexer_ungetc
length-ungetc lx c = ground arith

pub getc-seen : (lx : Lexer) → (lexer_getc lx).lx.lx_seen ≡ lx.lx_seen
unfolding lexer_getc
getc-seen lx = ground arith

pub ungetc-seen : (lx : Lexer) (c : ℕ) → (lexer_ungetc lx c).lx_seen ≡ lx.lx_seen
unfolding lexer_ungetc
ungetc-seen lx c = ground arith
