-- ===== src/Lexer/Open.antt =====
-- The parsers' walk between the start of the tokens and the token of type `lexer_eof`, and what it
-- takes for them to end.
use robsd.Base.{
  ==_iff, Bytes, ℕ, zero, suc, ◌<◌, true, List, [], ◌∷◌, ◌++◌, Option, none, some, Bytes, length,
  Result, done, failed, out_of_fuel, ◌≡◌, ◌≢◌, ◌⊎◌, inl, inr, arith, refl, Bool-cases, Result-cases,
  ◌==◌, ◌∙◌,
}
use robsd.Lexer.{
  Token, Lexer, lexer_eof, lexer_alloc, lexer_peek, lexer_expect, lexer_if, lexer_alloc_loop,
  lexer_alloc, lexer_start, lexer_start,
}
use robsd.Lexer.Cursor.{NotAtEof, IsNext, advance, expect-IsNext, if-IsNext, peek-IsNext}

-- The token of type `lexer_eof` is ahead.
abbrev pub HasEof : List Token → Type 0
HasEof [] = ⊥
HasEof (t ∷ ts) = (t.tk_type ≡ lexer_eof) ⊎ HasEof ts

pub record IsOpen (lx : Lexer) : Type 0 where
  pub not_at_eof : NotAtEof lx.lx_seen
  pub eof_ahead : HasEof lx.lx_ahead

pub open-IsNext : {lx : Lexer} → IsOpen lx → (t : Token) × (ts : List Token) × IsNext lx t ts
open-IsNext {lx} h = go lx.lx_ahead refl h.eof_ahead
  where
    go :
        (ahead : List Token)
        → lx.lx_ahead ≡ ahead
        → HasEof ahead
        → (t : Token) × (ts : List Token) × IsNext lx t ts
    go [] e b = absurd b
    go (t ∷ ts) e b = (t, ts, record { before_eof = h.not_at_eof; ahead = e })

-- One token other than the last is consumed.
pub record Consumes (lx lx' : Lexer) : Type 0 where
  pub is_open : IsOpen lx'
  pub shorter : length lx'.lx_ahead < length lx.lx_ahead

pub advance-Consumes :
    (lx : Lexer) (t : Token) (ts : List Token)
    → IsOpen lx
    → IsNext lx t ts
    → t.tk_type ≢ lexer_eof
    → Consumes lx (advance lx t ts)
advance-Consumes lx t ts h n ne =
    let ahead : HasEof (t ∷ ts) = rw n.ahead at h.eof_ahead in
    record {
      is_open = record {
        not_at_eof = ne;
        eof_ahead = elim ahead [ inl e ↦ absurd (ne e) | inr later ↦ later ];
      };
      shorter = rw n.ahead (omega arith);
    }

matches : {a b : ℕ} → (a == b) ≡ true → b ≢ lexer_eof → a ≢ lexer_eof
matches e ne = ground arith

-- A token that is asked for and found is consumed.
pub expect-Consumes :
    (lx : Lexer) (type : ℕ) (t : Token)
    → IsOpen lx
    → type ≢ lexer_eof
    → (lexer_expect lx type).0 ≡ some t
    → Consumes lx (lexer_expect lx type).1
expect-Consumes lx type t h ne e =
    let (u, us, n) = open-IsNext h in
    let found = expect-IsNext lx u us type n in
    elim (Bool-cases (u.tk_type == type)) [
      | inl same ↦ rw (found, same) (advance-Consumes lx u us h n (matches same ne))
      | inr other ↦ absurd (ground (arith, found))
    ]

-- Either the token is consumed, or the lexer is as before.
pub if-Consumes :
    (lx : Lexer) (type : ℕ)
    → IsOpen lx
    → type ≢ lexer_eof
    → (((t : Token) × ((lexer_if lx type).0 ≡ some t)) × Consumes lx (lexer_if lx type).1)
      ⊎ (((lexer_if lx type).0 ≡ none) × ((lexer_if lx type).1 ≡ lx))
if-Consumes lx type h ne =
    let (u, us, n) = open-IsNext h in
    let found = if-IsNext lx u us type n in
    elim (Bool-cases (u.tk_type == type)) [
      | inl same ↦
          inl (rw (found, same) ((u, refl), advance-Consumes lx u us h n (matches same ne)))
      | inr other ↦ inr (rw (found, other) (refl, refl))
    ]

-- A test for the end leaves the lexer as it is.
pub peek-IsOpen : (lx : Lexer) (type : ℕ) → IsOpen lx → (lexer_peek lx type).1 ≡ lx
peek-IsOpen lx type h = let (u, us, n) = open-IsNext h in rw (peek-IsNext lx u us type n)

-- What a loop over the tokens gives: no end of the fuel, and a lexer that has consumed a token.
abbrev pub Ends : {A : Type 0} → Lexer → Result (A × Lexer) → Type 0
Ends lx (done (a, lx')) = Consumes lx lx'
Ends lx failed = Unit
Ends lx out_of_fuel = ⊥

pub Consumes-trans : {lx lx' lx'' : Lexer} → Consumes lx lx' → Consumes lx' lx'' → Consumes lx lx''
Consumes-trans c d = record { is_open = d.is_open; shorter = omega (arith, c.shorter, d.shorter) }

pub Ends-trans :
    {A : Type 0} {lx lx' : Lexer} (r : Result (A × Lexer))
    → Consumes lx lx'
    → Ends lx' r
    → Ends lx r
Ends-trans (done (a, lx'')) c e = Consumes-trans c e
Ends-trans failed c e = tt
Ends-trans out_of_fuel c e = e

HasEof-append : (ts : List Token) (t : Token) → t.tk_type ≡ lexer_eof → HasEof (ts ++ t ∷ [])
HasEof-append [] t e = inl e
HasEof-append (u ∷ ts) t e = inr (HasEof-append ts t e)

alloc_loop-HasEof :
    (read : Lexer → Result Token × Lexer)
    → ((lx : Lexer) → (read lx).1.lx_seen ≡ lx.lx_seen)
    → (fuel : ℕ) (lx lx' : Lexer) → lexer_alloc_loop fuel read lx ≡ done lx'
    → (lx'.lx_seen ≡ lx.lx_seen) × HasEof lx'.lx_ahead
unfolding lexer_alloc_loop
alloc_loop-HasEof read keeps zero lx lx' h = cc
alloc_loop-HasEof read keeps (suc fuel) lx lx' h = elim (Result-cases (read lx).0) [
  | inr e ↦ absurd (ground arith)
  | inl (t, e) ↦
      let lx1 = record (read lx).1 { lx_ahead = (read lx).1.lx_ahead ++ t ∷ [] } in
      elim (Bool-cases (t.tk_type == lexer_eof)) [
        | inl last ↦
            let q : lx1 ≡ lx' = ground arith in
            rw (← q) (keeps lx, HasEof-append _ t ((==_iff t.tk_type lexer_eof).0 last))
        | inr more ↦
            let (seen, eof) = alloc_loop-HasEof read keeps fuel lx1 lx' (ground arith) in
            (seen ∙ keeps lx, eof)
      ]
]

-- The parser begins at the first token.
pub alloc-IsOpen :
    (read : Lexer → Result Token × Lexer)
    → ((lx : Lexer) → (read lx).1.lx_seen ≡ lx.lx_seen)
    → (buf : Option Bytes) (lx : Lexer) → lexer_alloc read buf ≡ done lx
    → IsOpen lx
unfolding lexer_alloc
alloc-IsOpen read keeps none lx h = cc
alloc-IsOpen read keeps (some buf) lx h =
    let (seen, eof) = alloc_loop-HasEof read keeps (suc (length buf)) (lexer_start buf) lx h in
    record { not_at_eof = rw seen tt; eof_ahead = eof }
