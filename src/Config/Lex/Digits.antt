-- ===== src/Config/Lex/Digits.antt =====
-- The integers of a configuration: what a run of digits is read as.
use robsd.Base.{
  ℕ, ◌+◌, ◌-◌, ◌*◌, ◌≤◌, ◌<◌, Bool, true, false, [], ◌∷◌, Bytes, leb, ℤ, pos, ◌≡◌, ◌⊎◌, inl, inr,
  refl, ap, arith, Bool-cases,
}
use robsd.Config.Lex.{Overflow, IsOverflow, i32_max, add_digit, add_to}

-- The number that digits stand for, behind the number `n`.
unfoldable pub decimal : ℕ → Bytes → ℕ
decimal n [] = n
decimal n (c ∷ ds) = decimal (n * 10 + (c - b'0')) ds

decimal_ge : (n : ℕ) (ds : Bytes) → n ≤ decimal n ds
unfolding decimal
decimal_ge n [] = omega arith
decimal_ge n (c ∷ ds) = let rest = decimal_ge (n * 10 + (c - b'0')) ds in omega (arith, rest)

-- The loop's additions.
unfoldable pub add_all : {A : Type 0} → (A → ℕ → A) → A → Bytes → A
add_all add v [] = v
add_all add v (c ∷ ds) = add_all add (add v c) ds

module _ (o : Overflow) (h : IsOverflow o) where
  overflowed : (ds : Bytes) (v : Bool × ℤ) → v.0 ≡ true → (add_all (add_to o) v ds).0 ≡ true
  unfolding add_all add_to
  overflowed [] v e = e
  overflowed (c ∷ ds) v e = overflowed ds (add_to o v c) (rw e refl)

  add_fits :
      (n c : ℕ)
      → n * 10 + (c - b'0') ≤ i32_max
      → add_to o (false, pos n) c ≡ (false, pos (n * 10 + (c - b'0')))
  unfolding add_to add_digit
  add_fits n c l = rw (h.mul_fits n 10 (omega arith)) (rw (h.add_fits (n * 10) (c - b'0') l) refl)

  add_large : (n c : ℕ) → i32_max < n * 10 + (c - b'0') → (add_to o (false, pos n) c).0 ≡ true
  unfolding add_to add_digit
  add_large n c l = elim (Bool-cases (leb (n * 10) i32_max)) [
    | inl e ↦ rw (h.mul_fits n 10 (ground arith)) (h.add_large (n * 10) (c - b'0') l)
    | inr e ↦ let m = h.mul_large n 10 (ground arith) in ground (arith, m)
  ]

  digits_fit :
      (ds : Bytes) (n : ℕ)
      → decimal n ds ≤ i32_max
      → add_all (add_to o) (false, pos n) ds ≡ (false, pos (decimal n ds))
  unfolding add_all decimal
  digits_fit [] n l = refl
  digits_fit (c ∷ ds) n l =
      let rest = decimal_ge (n * 10 + (c - b'0')) ds in
      rw (add_fits n c (omega (arith, rest))) (digits_fit ds (n * 10 + (c - b'0')) l)

  digits_large :
      (ds : Bytes) (n : ℕ)
      → n ≤ i32_max
      → i32_max < decimal n ds
      → (add_all (add_to o) (false, pos n) ds).0 ≡ true
  unfolding add_all decimal
  digits_large [] n l g = absurd (omega arith)
  digits_large (c ∷ ds) n l g = elim (Bool-cases (leb (n * 10 + (c - b'0')) i32_max)) [
    | inl e ↦
        rw (ap (λ v. add_all (add_to o) v ds) (add_fits n c (ground arith)))
          (digits_large ds (n * 10 + (c - b'0')) (ground arith) g)
    | inr e ↦ overflowed ds (add_to o (false, pos n) c) (add_large n c (ground arith))
  ]

-- What the loop gives for digits that stand for an int, and for others.
pub digits-value :
    (o : Overflow)
    → IsOverflow o
    → (ds : Bytes)
    → ((decimal 0 ds ≤ i32_max)
        × (add_all (add_to o) (false, pos 0) ds ≡ (false, pos (decimal 0 ds))))
      ⊎ ((i32_max < decimal 0 ds) × ((add_all (add_to o) (false, pos 0) ds).0 ≡ true))
digits-value o h ds = elim (Bool-cases (leb (decimal 0 ds) i32_max)) [
  | inl e ↦ inl (ground arith, digits_fit o h ds 0 (ground arith))
  | inr e ↦ inr (ground arith, digits_large o h ds 0 (omega arith) (ground arith))
]
