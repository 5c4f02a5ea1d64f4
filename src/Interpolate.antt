-- ===== src/Interpolate.antt =====
-- Template substitution, interpolate.c.
--
-- A lookup callback may change what its argument points to (that of the configuration does), so it
-- takes a state `S` and returns a new one; every outcome carries the state in which the code stops.
-- What is appended to the buffer `bf` stands behind what it held. The counter `depth` of the C code
-- is `5 - left` once `interpolate` has raised it: it fails when `left` is 0. The messages are not
-- kept. `arena_buffer_getline` is not part of this repository's own code: `interpolate_file` takes
-- the lines that it yields, or `none` where the file cannot be read.
pub mod Fuel
pub mod Append
pub mod Template
pub mod State
use robsd.Base.{
  ℕ, zero, suc, Bool, true, false, List, [], ◌∷◌, ◌++◌, Option, none, some, ◌==◌, if◌then◌else◌,
  Bytes, strchr, length, Result, done, failed, out_of_fuel,
}

-- How many calls of `interpolate` may be nested: the fifth fails.
abbrev pub max_depth : ℕ
max_depth = 4

-- What follows a `$`: the name between braces, and the text behind them; `none` for each of the
-- three errors, a missing `{`, a missing `}` and an empty name.
close_brace : Option (Bytes × Bytes) → Option (Bytes × Bytes)
close_brace none = none
close_brace (some ([], behind)) = none
close_brace (some (c ∷ name, behind)) = some (c ∷ name, behind)

unfoldable pub variable_name : Bytes → Option (Bytes × Bytes)
unfolding close_brace
variable_name [] = none
variable_name (c ∷ vs) = if c == b'{' then close_brace (strchr vs b'}') else none

module _ {S : Type 0} (lookup : Bytes → S → Option Bytes × S) (ignore_errors : Bool) where
  -- One round behind the text `before` and a `$`: `next` is the loop on the text that is left, and
  -- `nested` is `interpolate` on a value.
  unfoldable pub substitute :
      (Bytes → Bytes → S → Result Bytes × S)
      → (Bytes → Bytes → S → Result Bytes × S)
      → Bytes
      → Option (Bytes × Bytes)
      → S
      → Result Bytes × S
  substitute next nested bf none s = (failed, s)
  substitute next nested bf (some (name, behind)) s =
      let r = lookup name s in
      elim r.0 [
        | none ↦
            if ignore_errors
            then next (bf ++ b'$' ∷ b'{' ∷ name ++ b'}' ∷ []) behind r.1
            else (failed, r.1)
        | some value ↦
            let v = nested bf value r.1 in
            elim v.0 [
              | done bf' ↦ next bf' behind v.1
              | failed ↦ (failed, v.1)
              | out_of_fuel ↦ (out_of_fuel, v.1)
            ]
      ]

  -- The loop of `interpolate_inner`.
  unfoldable pub interpolate_inner :
      (Bytes → Bytes → S → Result Bytes × S) → ℕ → Bytes → Bytes → S → Result Bytes × S
  interpolate_inner nested zero bf str s = (out_of_fuel, s)
  interpolate_inner nested (suc fuel) bf str s = elim (strchr str b'$') [
    | none ↦ (done (bf ++ str), s)
    | some (before, vs) ↦
        substitute (interpolate_inner nested fuel) nested (bf ++ before) (variable_name vs) s
  ]

  unfoldable pub interpolate : ℕ → Bytes → Bytes → S → Result Bytes × S
  interpolate zero bf str s = (failed, s)
  interpolate (suc left) bf str s = interpolate_inner (interpolate left) (suc (length str)) bf str s

  unfoldable pub interpolate_buffer : Bytes → Bytes → S → Result Bytes × S
  interpolate_buffer str bf s = interpolate max_depth bf str s

  unfoldable pub interpolate_str : Bytes → S → Result Bytes × S
  interpolate_str str s = interpolate_buffer str [] s

  -- The loop of `interpolate_file` over the lines.
  unfoldable pub interpolate_lines : Bytes → List Bytes → S → Result Bytes × S
  interpolate_lines out [] s = (done out, s)
  interpolate_lines out (line ∷ lines) s =
      let r = interpolate max_depth out line s in
      elim r.0 [
        | done out' ↦ interpolate_lines (out' ++ b'\n' ∷ []) lines r.1
        | failed ↦ (failed, r.1)
        | out_of_fuel ↦ (out_of_fuel, r.1)
      ]

  unfoldable pub interpolate_file : Option (List Bytes) → S → Result Bytes × S
  interpolate_file none s = (failed, s)
  interpolate_file (some lines) s = interpolate_lines [] lines s
