-- ===== src/Interpolate/Fuel.antt =====
-- The loop of `interpolate_inner` ends: each round takes at least the `$` off the text.
use robsd.Base.{
  ℕ, zero, suc, ◌<◌, Bool, [], ◌∷◌, ◌++◌, Option, some, ◌≡◌, ◌≢◌, arith, Bytes, length, Result,
  out_of_fuel, Option-cases, Result-cases, inl, inr, strchr,
}
use robsd.Interpolate.{variable_name, close_brace, substitute, interpolate_inner, interpolate}

-- The character that strchr finds is not part of the text behind it.
pub length-strchr :
    (s : Bytes) (c : ℕ) (before behind : Bytes)
    → strchr s c ≡ some (before, behind)
    → length behind < length s
unfolding strchr
length-strchr [] c before behind h = cc
length-strchr (x ∷ xs) c before behind h = elim (Option-cases (strchr xs c)) [
  | inl e ↦ ground arith
  | inr ((a, b), e) ↦ ground (arith, length-strchr xs c a b e)
]

length-close_brace :
    (vs name behind : Bytes)
    → close_brace (strchr vs b'}') ≡ some (name, behind)
    → length behind < length vs
unfolding close_brace
length-close_brace vs name behind h = elim (Option-cases (strchr vs b'}')) [
  | inl e ↦ ground arith
  | inr (([], b), e) ↦ ground arith
  | inr ((c ∷ a, b), e) ↦ ground (arith, length-strchr vs b'}' (c ∷ a) b e)
]

pub length-variable_name :
    (vs name behind : Bytes) → variable_name vs ≡ some (name, behind) → length behind < length vs
unfolding variable_name
length-variable_name [] name behind h = cc
length-variable_name (c ∷ vs) name behind h = ground (arith, length-close_brace vs name behind)

module _ {S : Type 0} (lookup : Bytes → S → Option Bytes × S) (ignore_errors : Bool) where
  substitute-ne-out_of_fuel :
      (next nested : Bytes → Bytes → S → Result Bytes × S) (bf vs : Bytes) (s : S)
      → ((bf' str : Bytes) (s' : S) → length str < length vs → (next bf' str s').0 ≢ out_of_fuel)
      → ((bf' str : Bytes) (s' : S) → (nested bf' str s').0 ≢ out_of_fuel)
      → (substitute lookup ignore_errors next nested bf (variable_name vs) s).0 ≢ out_of_fuel
  unfolding substitute
  substitute-ne-out_of_fuel next nested bf vs s hn hv = elim (Option-cases (variable_name vs)) [
    | inl e ↦ rw e (cc)
    | inr ((name, behind), e) ↦
        let short = length-variable_name vs name behind e in
        let r = lookup name s in
        rw e (elim (Option-cases r.0) [
          | inl missing ↦
              ground (arith, hn (bf ++ b'$' ∷ b'{' ∷ name ++ b'}' ∷ []) behind r.1 short)
          | inr (value, found) ↦
              let v = nested bf value r.1 in
              elim (Result-cases v.0) [
                | inl (out, e2) ↦ ground (arith, hn out behind v.1 short)
                | inr e3 ↦ ground (arith, hv bf value r.1)
              ]
        ])
  ]

  inner-ne-out_of_fuel :
      (nested : Bytes → Bytes → S → Result Bytes × S)
      → ((bf' str : Bytes) (s' : S) → (nested bf' str s').0 ≢ out_of_fuel)
      → (fuel : ℕ) (bf str : Bytes) (s : S) → length str < fuel
      → (interpolate_inner lookup ignore_errors nested fuel bf str s).0 ≢ out_of_fuel
  unfolding interpolate_inner
  inner-ne-out_of_fuel nested hv zero bf str s h = absurd (omega arith)
  inner-ne-out_of_fuel nested hv (suc fuel) bf str s h = elim (Option-cases (strchr str b'$')) [
    | inl e ↦ ground arith
    | inr ((before, vs), e) ↦
        let shorter = length-strchr str b'$' before vs e in
        let next = interpolate_inner lookup ignore_errors nested fuel in
        let ends =
          substitute-ne-out_of_fuel next nested (bf ++ before) vs s
            (λ bf' rest s' lt. inner-ne-out_of_fuel nested hv fuel bf' rest s' (omega arith)) hv in
        ground (arith, ends)
  ]

  -- Whatever the text and the callback are, `interpolate` returns: the loop's fuel, one more than
  -- the length of the text, is enough at each depth.
  pub interpolate-ne-out_of_fuel :
      (left : ℕ) (bf str : Bytes) (s : S)
      → (interpolate lookup ignore_errors left bf str s).0 ≢ out_of_fuel
  unfolding interpolate
  interpolate-ne-out_of_fuel zero bf str s = cc
  interpolate-ne-out_of_fuel (suc left) bf str s =
      inner-ne-out_of_fuel (interpolate lookup ignore_errors left) (interpolate-ne-out_of_fuel left)
        (suc (length str)) bf str s (omega arith)
