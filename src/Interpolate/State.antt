-- ===== src/Interpolate/State.antt =====
-- What the callback keeps, substitution keeps: a relation between states that holds from each call
-- of the callback to its end holds from the beginning of a substitution to its end.
use robsd.Base.{
  ℕ, zero, suc, Bool, [], ◌∷◌, ◌++◌, Option, none, some, Bytes, length, Result, Bool-cases,
  Option-cases, Result-cases, inl, inr, strchr,
}
use robsd.Interpolate.{
  variable_name, substitute, interpolate_inner, interpolate, interpolate_buffer, interpolate_str,
  max_depth,
}

module _ {S : Type 0} (R : S → S → Type 0) (stays : (s : S) → R s s)
    (follows : (s t u : S) → R s t → R t u → R s u) (lookup : Bytes → S → Option Bytes × S)
    (ignore_errors : Bool) (keeps : (name : Bytes) (s : S) → R s (lookup name s).1) where
  substitute-R :
      (next nested : Bytes → Bytes → S → Result Bytes × S)
      → ((bf str : Bytes) (s : S) → R s (next bf str s).1)
      → ((bf str : Bytes) (s : S) → R s (nested bf str s).1)
      → (bf : Bytes) (v : Option (Bytes × Bytes)) (s : S)
      → R s (substitute lookup ignore_errors next nested bf v s).1
  unfolding substitute
  substitute-R next nested hn hv bf none s = stays s
  substitute-R next nested hn hv bf (some (name, behind)) s =
      let r = lookup name s in
      let k = keeps name s in
      elim (Option-cases r.0) [
        | inl missing ↦
            rw (substitute, missing)
              (elim (Bool-cases ignore_errors) [
                | inr e ↦ rw e k
                | inl e ↦
                    rw e (follows s r.1 _ k (hn (bf ++ b'$' ∷ b'{' ∷ name ++ b'}' ∷ []) behind r.1))
              ])
        | inr (value, found) ↦
            let v = nested bf value r.1 in
            let k2 = follows s r.1 v.1 k (hv bf value r.1) in
            rw (substitute, found)
              (elim (Result-cases v.0) [
                | inl (out, e) ↦ rw e (follows s v.1 _ k2 (hn out behind v.1))
                | inr (inl e) ↦ rw e k2
                | inr (inr e) ↦ rw e k2
              ])
      ]

  inner-R :
      (nested : Bytes → Bytes → S → Result Bytes × S)
      → ((bf str : Bytes) (s : S) → R s (nested bf str s).1)
      → (fuel : ℕ) (bf str : Bytes) (s : S)
      → R s (interpolate_inner lookup ignore_errors nested fuel bf str s).1
  unfolding interpolate_inner
  inner-R nested hv zero bf str s = stays s
  inner-R nested hv (suc fuel) bf str s = elim (Option-cases (strchr str b'$')) [
    | inl e ↦ rw (interpolate_inner, e) (stays s)
    | inr ((before, vs), e) ↦
        rw (interpolate_inner, e)
          (substitute-R (interpolate_inner lookup ignore_errors nested fuel) nested
            (inner-R nested hv fuel) hv (bf ++ before) (variable_name vs) s)
  ]

  interpolate-R :
      (left : ℕ) (bf str : Bytes) (s : S) → R s (interpolate lookup ignore_errors left bf str s).1
  unfolding interpolate
  interpolate-R zero bf str s = stays s
  interpolate-R (suc left) bf str s =
      inner-R (interpolate lookup ignore_errors left) (interpolate-R left) (suc (length str)) bf str
        s

  pub interpolate_str-R : (str : Bytes) (s : S) → R s (interpolate_str lookup ignore_errors str s).1
  unfolding interpolate_str interpolate_buffer
  interpolate_str-R str s = interpolate-R max_depth [] str s
