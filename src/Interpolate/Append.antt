-- ===== src/Interpolate/Append.antt =====
-- Substitution only appends to the buffer, and what it appends does not depend on what the buffer
-- held.
use robsd.Base.{
  ℕ, zero, suc, Bool, [], ◌∷◌, ◌++◌, Option, none, some, ◌≡◌, refl, sym, ◌∙◌, ap, arith, Bytes,
  Result, done, failed, out_of_fuel, Option-cases, Result-cases, inl, inr, strchr, append_assoc,
  append-nil,
}
use robsd.Interpolate.{
  variable_name, substitute, interpolate_inner, interpolate, interpolate_buffer, interpolate_str,
  max_depth,
}

-- The outcome with `bf` before the text.
abbrev pub behind {ℓ} : {S : Type ℓ} → Bytes → Result Bytes × S → Result Bytes × S
behind bf (done out, s) = (done (bf ++ out), s)
behind bf (failed, s) = (failed, s)
behind bf (out_of_fuel, s) = (out_of_fuel, s)

module _ {S : Type 0} (lookup : Bytes → S → Option Bytes × S) (ignore_errors : Bool) where
  substitute-behind :
      (next nested : Bytes → Bytes → S → Result Bytes × S)
      → ((bf pre str : Bytes) (s : S) → next (bf ++ pre) str s ≡ behind bf (next pre str s))
      → ((bf pre str : Bytes) (s : S) → nested (bf ++ pre) str s ≡ behind bf (nested pre str s))
      → (bf pre : Bytes) (o : Option (Bytes × Bytes)) (s : S)
      → substitute lookup ignore_errors next nested (bf ++ pre) o s
        ≡ behind bf (substitute lookup ignore_errors next nested pre o s)
  unfolding substitute
  substitute-behind next nested hn hv bf pre none s = refl
  substitute-behind next nested hn hv bf pre (some (name, rest)) s =
      let r = lookup name s in
      let text : Bytes = b'$' ∷ b'{' ∷ name in
      elim (Option-cases r.0) [
        | inl missing ↦ ground (
          arith,
          hn bf (pre ++ text ++ b'}' ∷ []) rest r.1,
          append_assoc bf pre text,
          append_assoc bf (pre ++ text) (b'}' ∷ []),
        )
        | inr (value, found) ↦
            let v = nested pre value r.1 in
            elim (Result-cases v.0) [
              | inl (out, e) ↦ ground (arith, hv bf pre value r.1, hn bf out rest v.1)
              | inr e ↦ ground (arith, hv bf pre value r.1)
            ]
      ]

  inner-behind :
      (nested : Bytes → Bytes → S → Result Bytes × S)
      → ((bf pre str : Bytes) (s : S) → nested (bf ++ pre) str s ≡ behind bf (nested pre str s))
      → (fuel : ℕ) (bf pre str : Bytes) (s : S)
      → interpolate_inner lookup ignore_errors nested fuel (bf ++ pre) str s
        ≡ behind bf (interpolate_inner lookup ignore_errors nested fuel pre str s)
  unfolding interpolate_inner
  inner-behind nested hv zero bf pre str s = refl
  inner-behind nested hv (suc fuel) bf pre str s = elim (Option-cases (strchr str b'$')) [
    | inl e ↦ ground (arith, append_assoc bf pre str)
    | inr ((before, vs), e) ↦
        let next = interpolate_inner lookup ignore_errors nested fuel in
        ground (
          arith,
          append_assoc bf pre before,
          substitute-behind next nested (inner-behind nested hv fuel) hv bf (pre ++ before)
              (variable_name vs) s,
        )
  ]

  interpolate-append :
      (left : ℕ) (bf pre str : Bytes) (s : S)
      → interpolate lookup ignore_errors left (bf ++ pre) str s
        ≡ behind bf (interpolate lookup ignore_errors left pre str s)
  unfolding interpolate
  interpolate-append zero bf pre str s = refl
  interpolate-append (suc left) bf pre str s =
      inner-behind (interpolate lookup ignore_errors left) (interpolate-append left) _ bf pre str s

  -- A buffer keeps its contents in front, and what is put behind them, the outcome and the
  -- callback's state are those of `interpolate_str`.
  pub buffer-behind :
      (str bf : Bytes) (s : S)
      → interpolate_buffer lookup ignore_errors str bf s
        ≡ behind bf (interpolate_str lookup ignore_errors str s)
  unfolding interpolate_buffer interpolate_str
  buffer-behind str bf s =
      ap (λ b. interpolate lookup ignore_errors max_depth b str s) (sym (append-nil bf))
      ∙ interpolate-append max_depth bf [] str s
