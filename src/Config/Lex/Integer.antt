-- ===== src/Config/Lex/Integer.antt =====
-- The integer tokens of a configuration: reading a run of digits.
use mathlib.Core.Path.{subst}
use robsd.Base.{
  ℕ, zero, suc, ◌≤◌, ◌<◌, Bool, true, false, [], ◌∷◌, ◌++◌, Bytes, isspace, isdigit, length, All, ℤ,
  pos, Result, done, ◌==◌, ◌≡◌, ◌⊎◌, inl, inr, refl, ap, ◌∙◌, arith, if◌then◌else◌,
}
use robsd.Mode.{RobsdMode}
use robsd.Lexer.{Token, Lexer, Getc, lexer_emit, lexer_getc, lexer_ungetc, lexer_error}
use robsd.Config.Token.{token_integer}
use robsd.Config.Lex.{
  Overflow, IsOverflow, i32_max, islower, space_loop, skip_loop, Scan, scan_loop, add_to,
  digits_loop, integer_token, read_token, read_at, config_lexer_read,
}
use robsd.Config.Lex.Digits.{decimal, add_all, digits-value}

-- A byte read: what it is, and what of the lexer is as before.
record Takes (lx : Lexer) (c : ℕ) (rest : Bytes) : Type 0 where
  before_end : (lexer_getc lx).past_end ≡ false
  byte : (lexer_getc lx).ch ≡ c
  rest_is : (lexer_getc lx).lx.lx_rest ≡ rest
  same_err : (lexer_getc lx).lx.lx_err ≡ lx.lx_err
  same_eof : (lexer_getc lx).lx.lx_eof ≡ lx.lx_eof
  before_is : (lexer_getc lx).lx.lx_before ≡ c ∷ lx.lx_before

getc-Takes : (lx : Lexer) (c : ℕ) (rest : Bytes) → lx.lx_rest ≡ c ∷ rest → Takes lx c rest
unfolding lexer_getc
getc-Takes lx c rest e = record {
  before_end = ground arith;
  byte = ground arith;
  rest_is = ground arith;
  same_err = ground arith;
  same_eof = ground arith;
  before_is = ground arith;
}

-- The loop has read up to the byte `t`, which does not pass the test.
record StopsAt {A : Type 0} (r : Result (Scan A)) (value : A) (t : ℕ) (rest : Bytes) (lx : Lexer)
    : Type 0 where
  scan : Scan A
  returns : r ≡ done scan
  value_is : scan.value ≡ value
  last_is : scan.last ≡ t
  rest_is : scan.state.lx_rest ≡ rest
  same_err : scan.state.lx_err ≡ lx.lx_err
  same_eof : scan.state.lx_eof ≡ lx.lx_eof
  before : Bytes
  before_is : scan.state.lx_before ≡ t ∷ before

scan_loop_lem :
    {A : Type 0} (test : ℕ → Bool) (add : A → ℕ → A) (fuel : ℕ) (v : A) (c : ℕ) (ds : Bytes) (t : ℕ)
    (rest : Bytes) (lx : Lexer)
    → length ds < fuel
    → lx.lx_rest ≡ ds ++ t ∷ rest
    → test c ≡ true
    → All (λ d. test d ≡ true) ds
    → test t ≡ false
    → StopsAt (scan_loop test add (suc fuel) v c lx) (add_all add v (c ∷ ds)) t rest lx
unfolding scan_loop add_all
scan_loop_lem test add zero v c ds t rest lx l r hc hd ht = absurd (omega arith)
scan_loop_lem test add (suc fuel) v c [] t rest lx l r hc hd ht =
    let k = getc-Takes lx t rest r in
    let g = lexer_getc lx in
    let b = k.byte in
    record {
      scan = record { value = add v c; last = g.ch; state = g.lx };
      returns = rw (scan_loop, hc, k.before_end) (rw (ap test k.byte ∙ ht) refl);
      value_is = refl;
      last_is = b;
      rest_is = k.rest_is;
      same_err = k.same_err;
      same_eof = k.same_eof;
      before = lx.lx_before;
      before_is = k.before_is;
    }
scan_loop_lem test add (suc fuel) v c (d ∷ ds) t rest lx l r hc (hd, hds) ht =
    let k = getc-Takes lx d (ds ++ t ∷ rest) r in
    let g = lexer_getc lx in
    let ih =
      scan_loop_lem test add fuel (add v c) d ds t rest g.lx (omega arith) k.rest_is hd hds ht in
    record {
      scan = ih.scan;
      returns =
          rw (scan_loop, hc, k.before_end)
            (ap (λ b. scan_loop test add (suc fuel) (add v c) b g.lx) k.byte ∙ ih.returns);
      value_is = ih.value_is;
      last_is = ih.last_is;
      rest_is = ih.rest_is;
      same_err = ih.same_err ∙ k.same_err;
      same_eof = ih.same_eof ∙ k.same_eof;
      before = ih.before;
      before_is = ih.before_is;
    }

-- What comes back when the byte that was read last is given back.
ungetc-rest :
    (lx : Lexer) (t : ℕ) (before : Bytes)
    → lx.lx_eof ≡ 0
    → lx.lx_before ≡ t ∷ before
    → (lexer_ungetc lx t).lx_rest ≡ t ∷ lx.lx_rest
unfolding lexer_ungetc
ungetc-rest lx t before e b = ground arith

ungetc-err : (lx : Lexer) (t : ℕ) → (lexer_ungetc lx t).lx_err ≡ lx.lx_err
unfolding lexer_ungetc
ungetc-err lx t = ground arith

error-rest : (b : Bool) (lx : Lexer) → (if b then lexer_error lx else lx).lx_rest ≡ lx.lx_rest
unfolding lexer_error
error-rest true lx = refl
error-rest false lx = refl

error-err : (lx : Lexer) → (lexer_error lx).lx_err ≡ suc lx.lx_err
unfolding lexer_error
error-err lx = omega arith

digit_byte :
    (c : ℕ)
    → isdigit c ≡ true
    → ((c == b'#') ≡ false) × ((c == 0) ≡ false) × (isspace c ≡ false) × (islower c ≡ false)
unfolding isdigit isspace islower
digit_byte c h = (ground arith, ground arith, ground arith, ground arith)

-- At a digit, nothing is skipped.
skip-digit :
    (lx : Lexer) (fuel c : ℕ) (rest : Bytes)
    → lx.lx_rest ≡ c ∷ rest
    → isdigit c ≡ true
    → skip_loop (suc fuel) lx ≡ done (lexer_getc lx)
unfolding skip_loop space_loop
skip-digit lx fuel c rest e h =
    let k = getc-Takes lx c rest e in
    let (hash, nul, space, lower) = digit_byte c h in
    rw (skip_loop, space_loop, k.before_end)
      (rw (ap isspace k.byte ∙ space) (rw (ap (λ b. b == b'#') k.byte ∙ hash) refl))

-- What reading a run of digits gives.
pub record ReadsInteger (r : Result Token × Lexer) (n err : ℕ) (rest : Bytes) : Type 0 where
  pub token : Token
  pub returns : r.0 ≡ done token
  pub is_integer : token.tk_type ≡ token_integer
  pub rest_is : r.1.lx_rest ≡ rest
  pub value :
      ((n ≤ i32_max) × (token.tk_int ≡ pos n) × (r.1.lx_err ≡ err))
      ⊎ ((i32_max < n) × (r.1.lx_err ≡ suc err))

integer-ReadsInteger :
    (o : Overflow) (lno : ℕ) (r : Result (Scan (Bool × ℤ))) (lx : Lexer) (v : Bool × ℤ) (n t : ℕ)
    (rest : Bytes)
    → StopsAt r v t rest lx
    → lx.lx_eof ≡ 0
    → ((n ≤ i32_max) × (v ≡ (false, pos n))) ⊎ ((i32_max < n) × (v.0 ≡ true))
    → ReadsInteger (integer_token o lno r lx) n lx.lx_err (t ∷ rest)
unfolding integer_token lexer_emit
integer-ReadsInteger o lno r lx v n t rest s e value =
    let lx' = lexer_ungetc s.scan.state s.scan.last in
    let same : lx'.lx_err ≡ lx.lx_err = ungetc-err s.scan.state s.scan.last ∙ s.same_err in
    rw s.returns (record {
      token = record (lexer_emit lno token_integer) { tk_int = s.scan.value.1 };
      returns = refl;
      is_integer = refl;
      rest_is =
          error-rest s.scan.value.0 lx'
          ∙ ap (λ b. (lexer_ungetc s.scan.state b).lx_rest) s.last_is
          ∙ ungetc-rest s.scan.state t s.before (s.same_eof ∙ e) s.before_is
          ∙ ap (λ l. t ∷ l) s.rest_is;
      value = elim value [
        | inl (small, is) ↦
            let b : s.scan.value ≡ (false, pos n) = s.value_is ∙ is in
            inl (
              small,
              ap (λ p. p.1) b,
              ap (λ p. (if p.0 then lexer_error lx' else lx').lx_err) b ∙ same,
            )
        | inr (large, over) ↦ inr (
          large,
          ap (λ p. (if p.0 then lexer_error lx' else lx').lx_err) s.value_is
              ∙ ap (λ b. (if b then lexer_error lx' else lx').lx_err) over
              ∙ error-err lx'
              ∙ ap {B = ℕ} (λ k. suc k) same,
        )
      ];
    })

ReadsInteger-at :
    {n n' err err' : ℕ} {rest : Bytes} (r : Result Token × Lexer)
    → n ≡ n'
    → err ≡ err'
    → ReadsInteger r n err rest
    → ReadsInteger r n' err' rest
ReadsInteger-at {n' = n'} {err = err} {rest = rest} r e f h =
    subst (λ k. ReadsInteger r n' k rest) f (subst (λ k. ReadsInteger r k err rest) e h)

length_front : (s t : Bytes) → length s ≤ length (s ++ t)
length_front [] t = omega arith
length_front (c ∷ s) t = let rest = length_front s t in omega (arith, rest)

read_token-digit :
    (o : Overflow) (mode : RobsdMode) (g : Getc)
    → (g.ch == 0) ≡ false
    → islower g.ch ≡ false
    → isdigit g.ch ≡ true
    → read_token o mode g
      ≡ integer_token o g.lx.lx_lno (digits_loop o (suc (suc (length g.lx.lx_rest))) g.ch g.lx) g.lx
unfolding read_token
read_token-digit o mode g nul lower digit = rw (read_token, nul, lower, digit) refl

digits_loop-StopsAt :
    (o : Overflow) (c : ℕ) (ds : Bytes) (t : ℕ) (rest : Bytes) (lx : Lexer)
    → lx.lx_rest ≡ ds ++ t ∷ rest
    → isdigit c ≡ true
    → All (λ d. isdigit d ≡ true) ds
    → isdigit t ≡ false
    → StopsAt
        (digits_loop o (suc (suc (length lx.lx_rest))) c lx)
        (add_all (add_to o) (false, pos 0) (c ∷ ds))
        t
        rest
        lx
unfolding digits_loop
digits_loop-StopsAt o c ds t rest lx r hc hds ht =
    let shorter = length_front ds (t ∷ rest) in
    let len = ap length r in
    scan_loop_lem isdigit (add_to o) (suc (length lx.lx_rest)) (false, pos 0) c ds t rest lx
      (omega (arith, shorter, len)) r hc hds ht

-- Within a file, the callback for configurations reads a run of digits, up to a byte that is no digit,
-- as one integer token. A number that fits in an int is the token's; one that does not is reported as
-- an error, if the overflow checks do what they say.
pub read-ReadsInteger :
    (o : Overflow) (mode : RobsdMode) (lx : Lexer) (c : ℕ) (ds : Bytes) (t : ℕ) (rest : Bytes)
    → IsOverflow o
    → lx.lx_rest ≡ (c ∷ ds) ++ t ∷ rest
    → All (λ d. isdigit d ≡ true) (c ∷ ds)
    → isdigit t ≡ false
    → lx.lx_eof ≡ 0
    → ReadsInteger (config_lexer_read o mode lx) (decimal 0 (c ∷ ds)) lx.lx_err (t ∷ rest)
unfolding config_lexer_read read_at
read-ReadsInteger o mode lx c ds t rest h r (hc, hds) ht e =
    let k = getc-Takes lx c (ds ++ t ∷ rest) r in
    let g = lexer_getc lx in
    let (hash, nul, space, lower) = digit_byte c hc in
    let digit : isdigit g.ch ≡ true = ap isdigit k.byte ∙ hc in
    let s = digits_loop-StopsAt o g.ch ds t rest g.lx k.rest_is digit hds ht in
    let token =
      read_token-digit o mode g (ap (λ b. b == 0) k.byte ∙ nul) (ap islower k.byte ∙ lower) digit in
    rw (config_lexer_read, skip-digit lx (suc (length lx.lx_rest)) c (ds ++ t ∷ rest) r hc)
      (rw token (
        ReadsInteger-at _ (ap (λ b. decimal 0 (b ∷ ds)) k.byte) k.same_err (
          integer-ReadsInteger o g.lx.lx_lno _ g.lx _ (decimal 0 (g.ch ∷ ds)) t rest s
            (k.same_eof ∙ e) (digits-value o h (g.ch ∷ ds)))))
