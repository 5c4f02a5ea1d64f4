-- ===== src/Config/Lex.antt =====
-- The tokens of a configuration: `config_lexer_read` of conf.c.
--
-- The overflow checks of libks are an argument: the flag, and what is stored.
pub mod Reads
pub mod Digits
pub mod Integer
use robsd.Base.{
  ℕ, zero, suc, ◌+◌, ◌-◌, ◌≤◌, ◌*◌, ◌<◌, Bool, true, false, ◌&&◌, ◌||◌, List, [], ◌∷◌, ◌++◌, ◌≡◌,
  leb, ◌==◌, if◌then◌else◌, Bytes, isspace, isdigit, length, ℤ, pos, Result, done, failed,
  out_of_fuel,
}
use robsd.Mode.{RobsdMode}
use robsd.Lexer.{Token, Lexer, Getc, lexer_eof, lexer_emit, lexer_getc, lexer_ungetc, lexer_error}
use robsd.Config.Token.{
  token_unknown, token_boolean, token_integer, token_string, token_keyword, token_no, token_yes,
  token_type_lookup,
}

-- KS_i32_mul_overflow and KS_i32_add_overflow: whether the result is no int, and what is stored.
pub record Overflow : Type 0 where
  pub i32_mul : ℤ → ℤ → Bool × ℤ
  pub i32_add : ℤ → ℤ → Bool × ℤ

abbrev pub i32_max : ℕ
i32_max = 2147483647

-- What the code relies on: an int that fits is stored, and one that does not is reported.
pub record IsOverflow (o : Overflow) : Type 0 where
  pub mul_fits : (a b : ℕ) → a * b ≤ i32_max → o.i32_mul (pos a) (pos b) ≡ (false, pos (a * b))
  pub mul_large : (a b : ℕ) → i32_max < a * b → (o.i32_mul (pos a) (pos b)).0 ≡ true
  pub add_fits : (a b : ℕ) → a + b ≤ i32_max → o.i32_add (pos a) (pos b) ≡ (false, pos (a + b))
  pub add_large : (a b : ℕ) → i32_max < a + b → (o.i32_add (pos a) (pos b)).0 ≡ true

-- islower(3) in the C locale
unfoldable pub islower : ℕ → Bool
islower c = leb b'a' c && leb c b'z'

-- The first loop: the byte behind white space, or what the last read beyond the end stores.
unfoldable pub space_loop : ℕ → Lexer → Result Getc
space_loop zero lx = out_of_fuel
space_loop (suc fuel) lx =
    let g = lexer_getc lx in
    let rest = space_loop fuel g.lx in
    if g.past_end then done g else if isspace g.ch then rest else done g

-- The loop over a comment, at the byte `ch`.
unfoldable pub comment_loop : ℕ → ℕ → Lexer → Result Lexer
comment_loop zero ch lx = out_of_fuel
comment_loop (suc fuel) ch lx =
    let g = lexer_getc lx in
    let rest = comment_loop fuel g.ch g.lx in
    if ch == b'\n' || ch == 0 then done lx else if g.past_end then done g.lx else rest

-- The byte at which a token begins: white space and comments are skipped.
unfoldable pub skip_loop : ℕ → Lexer → Result Getc
skip_loop zero lx = out_of_fuel
skip_loop (suc fuel) lx = elim (space_loop (suc (suc (length lx.lx_rest))) lx) [
  | failed ↦ failed
  | out_of_fuel ↦ out_of_fuel
  | done g ↦ elim (g.ch == b'#') [
    | false ↦ done g
    | true ↦ elim (comment_loop (suc (suc (length g.lx.lx_rest))) g.ch g.lx) [
      | failed ↦ failed
      | out_of_fuel ↦ out_of_fuel
      | done lx' ↦ skip_loop fuel lx'
    ]
  ]
]

abbrev pub is_word : ℕ → Bool
is_word c = islower c || (isdigit c || c == b'-')

-- What a loop over the bytes of a token gives: the value, the byte behind, and the new state.
pub record Scan (A : Type 0) : Type 0 where
  pub value : A
  pub last : ℕ
  pub state : Lexer

-- The loop over the bytes that pass a test, from the byte `ch` on; `add` takes each of them.
unfoldable pub scan_loop :
    {A : Type 0} → (ℕ → Bool) → (A → ℕ → A) → ℕ → A → ℕ → Lexer → Result (Scan A)
scan_loop test add zero value ch lx = out_of_fuel
scan_loop test add (suc fuel) value ch lx =
    let g = lexer_getc lx in
    let value' = add value ch in
    let rest = scan_loop test add fuel value' g.ch g.lx in
    if test ch
    then (if g.past_end then done (record { value = value'; last = g.ch; state = g.lx }) else rest)
    else done (record { value = value; last = ch; state = lx })

unfoldable pub add_byte : Bytes → ℕ → Bytes
add_byte bf ch = bf ++ ch ∷ []

unfoldable pub word_loop : ℕ → ℕ → Lexer → Result (Scan Bytes)
unfolding scan_loop add_byte
word_loop fuel ch lx = scan_loop is_word add_byte fuel [] ch lx

unfoldable pub word_token : ℕ → Bytes → ℕ → Token
word_token lno word type =
    if type == token_keyword
    then record (lexer_emit lno token_keyword) { tk_str = word }
    else if type == token_yes
    then record (lexer_emit lno token_boolean) { tk_int = pos 1 }
    else if type == token_no
    then lexer_emit lno token_boolean
    else lexer_emit lno type

module _ (o : Overflow) where
  -- A digit added to the number: whether one of the two operations overflows, and the number.
  unfoldable pub add_digit : ℤ → ℕ → Bool × ℤ
  add_digit val ch =
      let m = o.i32_mul val (pos 10) in
      let a = o.i32_add m.1 (pos (ch - b'0')) in if m.0 then (true, m.1) else a

  unfoldable pub add_to : Bool × ℤ → ℕ → Bool × ℤ
  unfolding add_digit
  add_to v ch = let a = add_digit v.1 ch in (v.0 || a.0, a.1)

  unfoldable pub digits_loop : ℕ → ℕ → Lexer → Result (Scan (Bool × ℤ))
  unfolding scan_loop add_to
  digits_loop fuel ch lx = scan_loop isdigit add_to fuel (false, pos 0) ch lx

  unfoldable pub integer_token : ℕ → Result (Scan (Bool × ℤ)) → Lexer → Result Token × Lexer
  integer_token lno (done s) lx =
      let lx' = lexer_ungetc s.state s.last in
      (
        done (record (lexer_emit lno token_integer) { tk_int = s.value.1 }),
        if s.value.0 then lexer_error lx' else lx',
      )
  integer_token lno failed lx = (failed, lx)
  integer_token lno out_of_fuel lx = (out_of_fuel, lx)

-- The loop over a string, behind its quote; `failed` is the NULL for a string without an end.
unfoldable pub string_loop : ℕ → Bytes → Lexer → Result Bytes × Lexer
string_loop zero bf lx = (out_of_fuel, lx)
string_loop (suc fuel) bf lx =
    let g = lexer_getc lx in
    let rest = string_loop fuel (bf ++ g.ch ∷ []) g.lx in
    if g.past_end
    then (done bf, g.lx)
    else if g.ch == 0
    then (failed, lexer_error g.lx)
    else if g.ch == b'"'
    then (done bf, g.lx)
    else rest

unfoldable pub string_token : ℕ → Result Bytes × Lexer → Result Token × Lexer
string_token lno (done bf, lx) = (
  done (record (lexer_emit lno token_string) { tk_str = bf }),
  if length bf == 0 then lexer_error lx else lx,
)
string_token lno (failed, lx) = (failed, lx)
string_token lno (out_of_fuel, lx) = (out_of_fuel, lx)

unfoldable pub read_word : RobsdMode → ℕ → Result (Scan Bytes) → Lexer → Result Token × Lexer
unfolding word_token
read_word mode lno (done s) lx = (
  done (word_token lno s.value (token_type_lookup mode s.value token_keyword)),
  lexer_ungetc s.state s.last,
)
read_word mode lno failed lx = (failed, lx)
read_word mode lno out_of_fuel lx = (out_of_fuel, lx)

-- The token that begins with the byte that was read.
unfoldable pub read_token : Overflow → RobsdMode → Getc → Result Token × Lexer
unfolding read_word integer_token string_token
read_token o mode g =
    let lno = g.lx.lx_lno in
    let fuel = suc (suc (length g.lx.lx_rest)) in
    if g.ch == 0
    then (done (lexer_emit lno lexer_eof), g.lx)
    else if islower g.ch
    then read_word mode lno (word_loop fuel g.ch g.lx) g.lx
    else if isdigit g.ch
    then integer_token o lno (digits_loop o fuel g.ch g.lx) g.lx
    else if g.ch == b'"'
    then string_token lno (string_loop fuel [] g.lx)
    else (done (lexer_emit lno (token_type_lookup mode (g.ch ∷ []) token_unknown)), g.lx)

unfoldable pub read_at : Overflow → RobsdMode → Lexer → Result Getc → Result Token × Lexer
unfolding read_token
read_at o mode lx (done g) = read_token o mode g
read_at o mode lx failed = (failed, lx)
read_at o mode lx out_of_fuel = (out_of_fuel, lx)

-- Each comment takes a byte, up to the end of the file.
unfoldable pub config_lexer_read : Overflow → RobsdMode → Lexer → Result Token × Lexer
unfolding read_at
config_lexer_read o mode lx = read_at o mode lx (skip_loop (suc (suc (length lx.lx_rest))) lx)
