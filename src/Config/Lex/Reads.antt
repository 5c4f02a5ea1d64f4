-- ===== src/Config/Lex/Reads.antt =====
-- The callback for configurations returns, and `lexer_alloc` ends.
use robsd.Base.{
  ℕ, zero, suc, ◌<◌, ◌≤◌, Bool, true, false, ◌||◌, [], ◌∷◌, ◌++◌, Option, none, some, Bytes,
  isspace, isdigit, length, ℤ, pos, Result, done, failed, out_of_fuel, ◌==◌, ◌≡◌, ◌≢◌, ◌∙◌, refl,
  arith, Bool-cases, Result-cases, inl, inr,
}
use robsd.Mode.{RobsdMode}
use robsd.Lexer.{
  Token, Lexer, Getc, lexer_eof, lexer_emit, lexer_getc, lexer_ungetc, lexer_error, lexer_alloc,
  lexer_start,
}
use robsd.Lexer.Input.{alloc_loop-ne-out_of_fuel, length-getc, getc-seen, ungetc-seen}
use robsd.Config.Lex.{
  scan_loop, add_byte, add_to, Overflow, Scan, islower, is_word, space_loop, comment_loop,
  skip_loop, word_loop, digits_loop, string_loop, read_word, integer_token, string_token,
  read_token, read_at, config_lexer_read,
}

-- The lexer has not gone back, and has left the tokens alone.
record Later (lx lx' : Lexer) : Type 0 where
  no_longer : length lx'.lx_rest ≤ length lx.lx_rest
  same_seen : lx'.lx_seen ≡ lx.lx_seen

Later-refl : (lx : Lexer) → Later lx lx
Later-refl lx = record { no_longer = omega arith; same_seen = refl }

Later-trans : {lx lx' lx'' : Lexer} → Later lx lx' → Later lx' lx'' → Later lx lx''
Later-trans a b = record {
  no_longer = omega (arith, a.no_longer, b.no_longer);
  same_seen = b.same_seen ∙ a.same_seen;
}

-- A byte that is not the NUL for the end was taken.
record Fetched (lx : Lexer) (ch : ℕ) (lx' : Lexer) : Type 0 where
  later : Later lx lx'
  shorter : ch ≢ 0 → length lx'.lx_rest < length lx.lx_rest

getc_no_longer : (lx : Lexer) → length (lexer_getc lx).lx.lx_rest ≤ length lx.lx_rest
unfolding lexer_getc
getc_no_longer lx = ground arith

getc-Fetched : (lx : Lexer) → Fetched lx (lexer_getc lx).ch (lexer_getc lx).lx
getc-Fetched lx = record {
  later = record { no_longer = getc_no_longer lx; same_seen = getc-seen lx };
  shorter = λ ne. omega (arith, length-getc lx ne);
}

Fetched-after :
    {lx lx' lx'' : Lexer} {ch : ℕ} → Later lx lx' → Fetched lx' ch lx'' → Fetched lx ch lx''
Fetched-after a b = record {
  later = Later-trans a b.later;
  shorter = λ ne. omega (arith, a.no_longer, b.shorter ne);
}

-- What the loops in front of a token give.
abbrev Fetches : Lexer → Result Getc → Type 0
Fetches lx (done g) = Fetched lx g.ch g.lx
Fetches lx failed = ⊥
Fetches lx out_of_fuel = ⊥

Fetches-after : {lx lx' : Lexer} (r : Result Getc) → Later lx lx' → Fetches lx' r → Fetches lx r
Fetches-after (done g) a b = Fetched-after a b
Fetches-after failed a b = b
Fetches-after out_of_fuel a b = b

isspace_ne : (c : ℕ) → isspace c ≡ true → c ≢ 0
unfolding isspace
isspace_ne c h = ground arith

space-Fetches : (fuel : ℕ) (lx : Lexer) → length lx.lx_rest < fuel → Fetches lx (space_loop fuel lx)
unfolding space_loop
space-Fetches zero lx h = absurd (omega arith)
space-Fetches (suc fuel) lx h =
    let g = lexer_getc lx in
    let f = getc-Fetched lx in
    elim (Bool-cases g.past_end) [
      | inl e ↦ rw (space_loop, e) f
      | inr e ↦ elim (Bool-cases (isspace g.ch)) [
        | inr e2 ↦ rw (space_loop, e, e2) f
        | inl e2 ↦
            rw (space_loop, e, e2)
              (Fetches-after (space_loop fuel g.lx) f.later
                (space-Fetches fuel g.lx (omega (arith, f.shorter (isspace_ne g.ch e2)))))
      ]
    ]

abbrev Returns : Lexer → Result Lexer → Type 0
Returns lx (done lx') = Later lx lx'
Returns lx failed = ⊥
Returns lx out_of_fuel = ⊥

Returns-after : {lx lx' : Lexer} (r : Result Lexer) → Later lx lx' → Returns lx' r → Returns lx r
Returns-after (done lx'') a b = Later-trans a b
Returns-after failed a b = b
Returns-after out_of_fuel a b = b

-- A round at the NUL for the end is the last.
comment-Returns :
    (fuel ch : ℕ) (lx : Lexer)
    → (ch ≢ 0 → suc (length lx.lx_rest) < fuel)
    → 0 < fuel
    → Returns lx (comment_loop fuel ch lx)
unfolding comment_loop
comment-Returns zero ch lx h p = absurd (omega arith)
comment-Returns (suc fuel) ch lx h p =
    let g = lexer_getc lx in
    let f = getc-Fetched lx in
    elim (Bool-cases (ch == b'\n' || ch == 0)) [
      | inl e ↦ rw (comment_loop, e) (Later-refl lx)
      | inr e ↦
          let enough : suc (length lx.lx_rest) < suc fuel = h (ground arith) in
          elim (Bool-cases g.past_end) [
            | inl e2 ↦ rw (comment_loop, e, e2) f.later
            | inr e2 ↦
                rw (comment_loop, e, e2)
                  (Returns-after (comment_loop fuel g.ch g.lx) f.later (
                    comment-Returns fuel g.ch g.lx (λ ne. omega (arith, f.shorter ne))
                      (omega arith)))
          ]
    ]

skip-Fetches : (fuel : ℕ) (lx : Lexer) → length lx.lx_rest < fuel → Fetches lx (skip_loop fuel lx)
unfolding skip_loop
skip-Fetches zero lx h = absurd (omega arith)
skip-Fetches (suc fuel) lx h =
    let space = space-Fetches (suc (suc (length lx.lx_rest))) lx (omega arith) in
    elim (Result-cases (space_loop (suc (suc (length lx.lx_rest))) lx)) [
      | inr (inl e) ↦ absurd (rw e at space)
      | inr (inr e) ↦ absurd (rw e at space)
      | inl (g, e) ↦
          let f : Fetched lx g.ch g.lx = rw e at space in
          elim (Bool-cases (g.ch == b'#')) [
            | inr e2 ↦ rw (skip_loop, e, e2) f
            | inl e2 ↦
                let fuel' = suc (suc (length g.lx.lx_rest)) in
                let comment = comment-Returns fuel' g.ch g.lx (λ ne. omega arith) (omega arith) in
                elim (Result-cases (comment_loop fuel' g.ch g.lx)) [
                  | inr (inl e3) ↦ absurd (rw e3 at comment)
                  | inr (inr e3) ↦ absurd (rw e3 at comment)
                  | inl (lx', e3) ↦
                      let l : Later g.lx lx' = rw e3 at comment in
                      rw (skip_loop, e, e2)
                        (rw e3 (
                          Fetches-after (skip_loop fuel lx') (Later-trans f.later l) (
                            skip-Fetches fuel lx'
                              (omega (arith, l.no_longer, f.shorter (ground arith))))))
                ]
          ]
    ]

-- The loops over the bytes of a token: when the byte behind it is given back, the lexer has not gone
-- back either.
abbrev Scans : {A : Type 0} → Lexer → Result (Scan A) → Type 0
Scans lx (done s) =
    (s.state.lx_seen ≡ lx.lx_seen)
    × ((c : ℕ) → length (lexer_ungetc s.state c).lx_rest ≤ length lx.lx_rest)
Scans lx failed = ⊥
Scans lx out_of_fuel = ⊥

length-ungetc-getc :
    (lx : Lexer) (c : ℕ) → length (lexer_ungetc (lexer_getc lx).lx c).lx_rest ≤ length lx.lx_rest
unfolding lexer_ungetc lexer_getc
length-ungetc-getc lx c = ground arith

Scans-after :
    {A : Type 0} {lx lx' : Lexer} (r : Result (Scan A)) → Later lx lx' → Scans lx' r → Scans lx r
Scans-after (done s) a (e, l) = (e ∙ a.same_seen, λ c. omega (arith, l c, a.no_longer))
Scans-after failed a b = b
Scans-after out_of_fuel a b = b

module _ {A : Type 0} (test : ℕ → Bool) (add : A → ℕ → A) (ends : test 0 ≡ false) where
  test_ne : (c : ℕ) → test c ≡ true → c ≢ 0
  test_ne c h e = let e' : test 0 ≡ true = rw e at h in cc

  -- The first byte passes the test.
  scan-Scans :
      (fuel : ℕ) (value : A) (ch : ℕ) (lx : Lexer)
      → suc (length lx.lx_rest) < fuel
      → test ch ≡ true
      → Scans lx (scan_loop test add fuel value ch lx)
  unfolding scan_loop
  scan-Scans zero value ch lx h t = absurd (omega arith)
  scan-Scans (suc zero) value ch lx h t = absurd (omega arith)
  scan-Scans (suc (suc fuel)) value ch lx h t =
      let g = lexer_getc lx in
      let f = getc-Fetched lx in
      let value' = add value ch in
      elim (Bool-cases g.past_end) [
        | inl e ↦ rw (scan_loop, t, e) (f.later.same_seen, length-ungetc-getc lx)
        | inr e ↦ elim (Bool-cases (test g.ch)) [
          | inr e2 ↦
              rw (scan_loop, t, e) (rw (scan_loop, e2) (f.later.same_seen, length-ungetc-getc lx))
          | inl e2 ↦
              rw (scan_loop, t, e)
                (Scans-after (scan_loop test add (suc fuel) value' g.ch g.lx) f.later (
                  scan-Scans (suc fuel) value' g.ch g.lx
                    (omega (arith, f.shorter (test_ne g.ch e2))) e2))
        ]
      ]

-- What a reader of a token gives: it does not run out of fuel, and goes on from behind `lx`.
abbrev Reads : Lexer → Result Token × Lexer → Type 0
Reads lx r =
    (r.0 ≢ out_of_fuel) × (r.1.lx_seen ≡ lx.lx_seen) × (length r.1.lx_rest ≤ length lx.lx_rest)

word-Reads :
    (mode : RobsdMode) (lno : ℕ) (r : Result (Scan Bytes)) (lx : Lexer)
    → Scans lx r
    → Reads lx (read_word mode lno r lx)
unfolding read_word
word-Reads mode lno (done s) lx (e, l) = (cc, ungetc-seen s.state s.last ∙ e, l s.last)
word-Reads mode lno failed lx h = absurd h
word-Reads mode lno out_of_fuel lx h = absurd h

error_seen : (lx : Lexer) → (lexer_error lx).lx_seen ≡ lx.lx_seen
unfolding lexer_error
error_seen lx = refl

error_rest : (lx : Lexer) → (lexer_error lx).lx_rest ≡ lx.lx_rest
unfolding lexer_error
error_rest lx = refl

integer-Reads :
    (o : Overflow) (lno : ℕ) (r : Result (Scan (Bool × ℤ))) (lx : Lexer)
    → Scans lx r
    → Reads lx (integer_token o lno r lx)
unfolding integer_token lexer_error
integer-Reads o lno (done s) lx (e, l) = elim (Bool-cases s.value.0) [
  | inl b ↦ rw b (cc, ungetc-seen s.state s.last ∙ e, l s.last)
  | inr b ↦ rw b (cc, ungetc-seen s.state s.last ∙ e, l s.last)
]
integer-Reads o lno failed lx h = absurd h
integer-Reads o lno out_of_fuel lx h = absurd h

-- The loop over a string.
abbrev ReadsBytes : Lexer → Result Bytes × Lexer → Type 0
ReadsBytes lx r =
    (r.0 ≢ out_of_fuel) × (r.1.lx_seen ≡ lx.lx_seen) × (length r.1.lx_rest ≤ length lx.lx_rest)

string-ReadsBytes :
    (fuel : ℕ) (bf : Bytes) (lx : Lexer)
    → length lx.lx_rest < fuel
    → ReadsBytes lx (string_loop fuel bf lx)
unfolding string_loop lexer_error
string-ReadsBytes zero bf lx h = absurd (omega arith)
string-ReadsBytes (suc fuel) bf lx h =
    let g = lexer_getc lx in
    let f = getc-Fetched lx in
    let seen = f.later.same_seen in
    let shorter = f.later.no_longer in
    elim (Bool-cases g.past_end) [
      | inl e ↦ rw (string_loop, e) (cc, seen, shorter)
      | inr e ↦ elim (Bool-cases (g.ch == 0)) [
        | inl e2 ↦ rw (string_loop, e, e2) (cc, seen, shorter)
        | inr e2 ↦ elim (Bool-cases (g.ch == b'"')) [
          | inl e3 ↦ rw (string_loop, e, e2, e3) (cc, seen, shorter)
          | inr e3 ↦
              let (r, s, l) =
                string-ReadsBytes fuel (bf ++ g.ch ∷ []) g.lx
                  (omega (arith, f.shorter (ground arith))) in
              rw (string_loop, e, e2, e3) (r, s ∙ seen, omega (arith, l, shorter))
        ]
      ]
    ]

string-Reads :
    (lno : ℕ) (r : Result Bytes × Lexer) (lx : Lexer)
    → ReadsBytes lx r
    → Reads lx (string_token lno r)
unfolding string_token lexer_error
string-Reads lno (done bf, lx') lx (r, s, l) = elim (Bool-cases (length bf == 0)) [
  | inl e ↦ rw e (cc, s, l)
  | inr e ↦ rw e (cc, s, l)
]
string-Reads lno (failed, lx') lx (r, s, l) = (cc, s, l)
string-Reads lno (out_of_fuel, lx') lx (r, s, l) = absurd (r refl)

is_word_end : is_word 0 ≡ false
unfolding islower isdigit
is_word_end = refl

isdigit_end : isdigit 0 ≡ false
unfolding isdigit
isdigit_end = refl

islower-is_word : (c : ℕ) → islower c ≡ true → is_word c ≡ true
islower-is_word c h = rw h refl

word_loop-Scans :
    (fuel ch : ℕ) (lx : Lexer)
    → suc (length lx.lx_rest) < fuel
    → is_word ch ≡ true
    → Scans lx (word_loop fuel ch lx)
unfolding word_loop
word_loop-Scans = λ fuel ch lx. scan-Scans is_word add_byte is_word_end fuel [] ch lx

digits_loop-Scans :
    (o : Overflow) (fuel ch : ℕ) (lx : Lexer)
    → suc (length lx.lx_rest) < fuel
    → isdigit ch ≡ true
    → Scans lx (digits_loop o fuel ch lx)
unfolding digits_loop
digits_loop-Scans o fuel ch lx = scan-Scans isdigit (add_to o) isdigit_end fuel (false, pos 0) ch lx

-- The token that begins with a byte that is no NUL.
token-Reads :
    (o : Overflow) (mode : RobsdMode) (g : Getc) → g.ch ≢ 0 → Reads g.lx (read_token o mode g)
unfolding read_token
token-Reads o mode g ne =
    let lno = g.lx.lx_lno in
    let fuel = suc (suc (length g.lx.lx_rest)) in
    let ends : (g.ch == 0) ≡ false = ground arith in
    elim (Bool-cases (islower g.ch)) [
      | inl e ↦
          rw (read_token, ends, e)
            (word-Reads mode lno _ g.lx
              (word_loop-Scans fuel g.ch g.lx (omega arith) (islower-is_word g.ch e)))
      | inr e ↦ elim (Bool-cases (isdigit g.ch)) [
        | inl e2 ↦
            rw (read_token, ends, e, e2)
              (integer-Reads o lno _ g.lx (digits_loop-Scans o fuel g.ch g.lx (omega arith) e2))
        | inr e2 ↦ elim (Bool-cases (g.ch == b'"')) [
          | inl e3 ↦
              rw (read_token, ends, e, e2, e3)
                (string-Reads lno (string_loop fuel [] g.lx) g.lx
                  (string-ReadsBytes fuel [] g.lx (omega arith)))
          | inr e3 ↦ rw (read_token, ends, e, e2, e3) (cc, refl, omega arith)
        ]
      ]
    ]

-- The whole callback: a token that is not the last takes a byte.
record ReadsOn (lx : Lexer) (r : Result Token × Lexer) : Type 0 where
  returns : r.0 ≢ out_of_fuel
  same_seen : r.1.lx_seen ≡ lx.lx_seen
  shorter :
      (t : Token) → r.0 ≡ done t → t.tk_type ≢ lexer_eof → length r.1.lx_rest < length lx.lx_rest

read-ReadsOn :
    (o : Overflow) (mode : RobsdMode) (lx : Lexer) (g : Getc)
    → Fetched lx g.ch g.lx
    → ReadsOn lx (read_token o mode g)
unfolding read_token lexer_emit
read-ReadsOn o mode lx g f = elim (Bool-cases (g.ch == 0)) [
  | inl e ↦
      rw (read_token, e)
        (record {
          returns = cc;
          same_seen = f.later.same_seen;
          shorter = λ t h ne. absurd (ne (cc));
        })
  | inr e ↦
      let ne : g.ch ≢ 0 = ground arith in
      let (r, s, l) = token-Reads o mode g ne in
      record {
        returns = r;
        same_seen = s ∙ f.later.same_seen;
        shorter = λ t h n. omega (arith, l, f.shorter ne);
      }
]

reads_at : (o : Overflow) (mode : RobsdMode) (lx : Lexer) → ReadsOn lx (config_lexer_read o mode lx)
unfolding config_lexer_read read_at
reads_at o mode lx =
    let skipped = skip-Fetches (suc (suc (length lx.lx_rest))) lx (omega arith) in
    elim (Result-cases (skip_loop (suc (suc (length lx.lx_rest))) lx)) [
      | inr (inl e) ↦ absurd (rw e at skipped)
      | inr (inr e) ↦ absurd (rw e at skipped)
      | inl (g, e) ↦ rw (config_lexer_read, e) (read-ReadsOn o mode lx g (rw e at skipped))
    ]

pub config_read-seen :
    (o : Overflow) (mode : RobsdMode) (lx : Lexer)
    → (config_lexer_read o mode lx).1.lx_seen ≡ lx.lx_seen
config_read-seen o mode lx = (reads_at o mode lx).same_seen

-- Reading the tokens of a configuration ends, whatever the file holds.
pub config_alloc-ne-out_of_fuel :
    (o : Overflow) (mode : RobsdMode) (buf : Option Bytes)
    → lexer_alloc (config_lexer_read o mode) buf ≢ out_of_fuel
unfolding lexer_alloc
config_alloc-ne-out_of_fuel o mode none = cc
config_alloc-ne-out_of_fuel o mode (some buf) =
    alloc_loop-ne-out_of_fuel (config_lexer_read o mode) (λ lx. (reads_at o mode lx).returns)
      (λ lx. (reads_at o mode lx).shorter) (suc (length buf)) (lexer_start buf) (omega arith)
