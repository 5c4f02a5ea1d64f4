-- ===== src/Strtonum/Print.antt =====
-- What is printed in decimal is read back.
use robsd.Base.{
  All-map, refl, ℕ, zero, suc, ◌+◌, ◌/◌, ◌%◌, ◌<◌, ◌≤◌, true, false, [], ◌∷◌, ltb, Bytes, isdigit,
  ℤ, pos, negsuc, ◌≤ℤ◌, ◌≡◌, ◌∙◌, refl, arith, All, Bool-cases, inl, inr,
}
use robsd.Strtonum.{
  llong_min, llong_max, scan_digits, in_range, strtoll, number, strtonum, digits, print_nat,
  print_int,
}

abbrev pub IsDigit : ℕ → Type 0
IsDigit c = (b'0' ≤ c) × (c ≤ b'9')

scan_last : (n : ℕ) (out : Bytes) → scan_digits ((b'0' + n % 10) ∷ out) (n / 10) ≡ scan_digits out n
unfolding scan_digits isdigit
scan_last n out = ground arith

scan_one : (n : ℕ) (out : Bytes) → n < 10 → scan_digits ((b'0' + n) ∷ out) 0 ≡ scan_digits out n
unfolding scan_digits isdigit
scan_one n out h = ground arith

scan-digits :
    (fuel n : ℕ) (out : Bytes) → n < fuel → scan_digits (digits fuel n out) 0 ≡ scan_digits out n
unfolding digits
scan-digits zero n out h = absurd (omega arith)
scan-digits (suc fuel) n out h = elim (Bool-cases (ltb n 10)) [
  | inl short ↦ ground (arith, scan_one n out)
  | inr long ↦
      ground
        (arith, scan-digits fuel (n / 10) ((b'0' + n % 10) ∷ out) (ground arith), scan_last n out)
]

digits-All :
    (fuel n : ℕ) (out : Bytes) → n < fuel → All IsDigit out → All IsDigit (digits fuel n out)
unfolding digits
digits-All zero n out h d = absurd (omega arith)
digits-All (suc fuel) n out h d = ground (arith, digits-All fuel (n / 10) ((b'0' + n % 10) ∷ out))

digits-cons :
    (fuel n : ℕ) (out : Bytes) → n < fuel → (c : ℕ) × (s : Bytes) × (digits fuel n out ≡ c ∷ s)
unfolding digits
digits-cons zero n out h = absurd (omega arith)
digits-cons (suc fuel) n out h = elim (Bool-cases (ltb n 10)) [
  | inl short ↦ (b'0' + n, out, ground arith)
  | inr long ↦
      let (c, s, e) = digits-cons fuel (n / 10) ((b'0' + n % 10) ∷ out) (ground arith) in
      (c, s, ground (arith, e))
]

strtoll-digits :
    (c : ℕ) (s : Bytes) → IsDigit c → strtoll (c ∷ s) ≡ in_range false (scan_digits (c ∷ s) 0)
unfolding strtoll
strtoll-digits c s h = ground arith

strtoll_negative :
    (c : ℕ) (s : Bytes) → IsDigit c → strtoll (b'-' ∷ c ∷ s) ≡ in_range true (scan_digits (c ∷ s) 0)
unfolding strtoll
strtoll_negative c s h = ground arith

print_nat-All : (n : ℕ) → All IsDigit (print_nat n)
unfolding print_nat
print_nat-All n = digits-All (suc n) n [] (omega arith) tt

print_nat-cons : (n : ℕ) → (c : ℕ) × (s : Bytes) × (print_nat n ≡ c ∷ s)
unfolding print_nat
print_nat-cons n = digits-cons (suc n) n [] (omega arith)

scan_digits-print_nat : (n : ℕ) → scan_digits (print_nat n) 0 ≡ (n, [])
unfolding print_nat
scan_digits-print_nat n = scan-digits (suc n) n [] (omega arith) ∙ unfold scan_digits in refl

strtoll-print_nat :
    (n : ℕ)
    → (strtoll (print_nat n) ≡ in_range false (n, []))
      × (strtoll (b'-' ∷ print_nat n) ≡ in_range true (n, []))
strtoll-print_nat n =
    let (c, s, e) = print_nat-cons n in
    let digit : All IsDigit (c ∷ s) = rw e at (print_nat-All n) in
    let scanned : scan_digits (c ∷ s) 0 ≡ (n, []) = rw e at (scan_digits-print_nat n) in
    rw e (strtoll-digits c s digit.0 ∙ rw scanned, strtoll_negative c s digit.0 ∙ rw scanned)

-- An int64 between the bounds is read back from its print.
pub strtonum-print_int :
    (v minval maxval : ℤ)
    → llong_min ≤ℤ v
    → v ≤ℤ llong_max
    → minval ≤ℤ v
    → v ≤ℤ maxval
    → strtonum (print_int v) minval maxval ≡ number v
unfolding strtonum in_range print_int
strtonum-print_int (pos n) minval maxval h1 h2 h3 h4 = ground (arith, strtoll-print_nat n)
strtonum-print_int (negsuc n) minval maxval h1 h2 h3 h4 = ground (arith, strtoll-print_nat (suc n))

-- A number that strtonum returns lies between the bounds.
pub strtonum_bounds :
    (numstr : Bytes) (minval maxval v : ℤ)
    → strtonum numstr minval maxval ≡ number v
    → (minval ≤ℤ v) × (v ≤ℤ maxval)
unfolding strtonum
strtonum_bounds numstr minval maxval v h = ground arith

-- The characters of a printed integer.
module _ (P : ℕ → Type 0) (digit : (c : ℕ) → IsDigit c → P c) (minus : P b'-') where
  pub print_int-All : (v : ℤ) → All P (print_int v)
  unfolding print_int
  print_int-All (pos n) = All-map IsDigit P digit (print_nat n) (print_nat-All n)
  print_int-All (negsuc n) =
      (minus, All-map IsDigit P digit (print_nat (suc n)) (print_nat-All (suc n)))

pub print_int-cons : (v : ℤ) → (c : ℕ) × (s : Bytes) × (print_int v ≡ c ∷ s)
unfolding print_int
print_int-cons (pos n) = print_nat-cons n
print_int-cons (negsuc n) = (b'-', print_nat (suc n), refl)
