-- ===== src/Strtonum.antt =====
-- strtonum of compat-strtonum.c, over strtoll(3) with base 10, and the decimal print of `%d` and
-- `PRId64`.
--
-- `errno` is used inside strtonum only: that strtoll ran out of range is the field `erange`, and
-- that it stopped at its first byte is the field `empty`. The four outcomes stand for `errstr`: NULL,
-- "invalid", "too small" and "too large".
pub mod Print
use robsd.Base.{
  ℕ, zero, suc, ◌+◌, ◌-◌, ◌*◌, ◌/◌, ◌%◌, ◌^◌, Bool, true, false, not, ◌&&◌, ◌||◌, List, [], ◌∷◌,
  ltb, leb, ◌==◌, if◌then◌else◌, Bytes, isspace, isdigit, ℤ, pos, negsuc, eqb_ℤ, ltb_ℤ,
}

abbrev pub llong_max : ℤ
llong_max = pos (2 ^ 63 - 1)

abbrev pub llong_min : ℤ
llong_min = negsuc (2 ^ 63 - 1)

abbrev pub int_max : ℤ
int_max = pos (2 ^ 31 - 1)

-- The digits at the front, as a number behind `n`, and the text behind them.
scan_digits : Bytes → ℕ → ℕ × Bytes
scan_digits [] n = (n, [])
scan_digits (c ∷ s) n = if isdigit c then scan_digits s (n * 10 + (c - b'0')) else (n, c ∷ s)

skip_space : Bytes → Bytes
skip_space [] = []
skip_space (c ∷ s) = if isspace c then skip_space s else c ∷ s

record Strtoll : Type 0 where
  value : ℤ
  empty : Bool
  erange : Bool
  endp : Bytes

-- `-n`
pub negate : ℕ → ℤ
negate zero = pos 0
negate (suc n) = negsuc n

in_range : Bool → ℕ × Bytes → Strtoll
unfolding negate
in_range true (n, endp) =
    if leb n (2 ^ 63)
    then record { value = negate n; empty = false; erange = false; endp = endp }
    else record { value = llong_min; empty = false; erange = true; endp = endp }
in_range false (n, endp) =
    if ltb n (2 ^ 63)
    then record { value = pos n; empty = false; erange = false; endp = endp }
    else record { value = llong_max; empty = false; erange = true; endp = endp }

no_number : Bytes → Strtoll
no_number s = record { value = pos 0; empty = true; erange = false; endp = s }

-- The digits behind the sign; at least one is wanted.
unsigned : Bytes → Bool → Bytes → Strtoll
unfolding no_number in_range scan_digits isdigit
unsigned s negative [] = no_number s
unsigned s negative (c ∷ d) =
    if isdigit c then in_range negative (scan_digits (c ∷ d) 0) else no_number s

signed : Bytes → Bytes → Strtoll
unfolding unsigned no_number
signed s [] = no_number s
signed s (c ∷ d) =
    if c == b'-'
    then unsigned s true d
    else if c == b'+'
    then unsigned s false d
    else unsigned s false (c ∷ d)

strtoll : Bytes → Strtoll
unfolding signed skip_space isspace
strtoll s = signed s (skip_space s)

pub data Number : Type 0 where
  number : ℤ → Number
  invalid too_small too_large : Number

abbrev is_nil : Bytes → Bool
is_nil [] = true
is_nil (c ∷ s) = false

checked : Strtoll → ℤ → ℤ → Number
checked r minval maxval =
    if r.empty || not (is_nil r.endp)
    then invalid
    else if eqb_ℤ r.value llong_min && r.erange || ltb_ℤ r.value minval
    then too_small
    else if eqb_ℤ r.value llong_max && r.erange || ltb_ℤ maxval r.value
    then too_large
    else number r.value

unfoldable pub strtonum : Bytes → ℤ → ℤ → Number
unfolding strtoll checked
strtonum numstr minval maxval =
    if ltb_ℤ maxval minval then invalid else checked (strtoll numstr) minval maxval

-- The decimal digits of `n` before `out`; fuel above `n` is enough.
digits : ℕ → ℕ → Bytes → Bytes
digits zero n out = out
digits (suc fuel) n out =
    let rest = digits fuel (n / 10) ((b'0' + n % 10) ∷ out) in
    if ltb n 10 then (b'0' + n) ∷ out else rest

unfoldable pub print_nat : ℕ → Bytes
unfolding digits
print_nat n = digits (suc n) n []

-- `%d` and `PRId64`
unfoldable pub print_int : ℤ → Bytes
print_int (pos n) = print_nat n
print_int (negsuc n) = b'-' ∷ print_nat (suc n)
