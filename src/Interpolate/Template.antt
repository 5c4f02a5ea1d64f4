-- ===== src/Interpolate/Template.antt =====
-- Substitution against an independent description: templates as trees, and their expansion.
use robsd.Base.{
  ℕ, zero, suc, ◌<◌, ◌≤◌, Bool, List, [], ◌∷◌, ◌++◌, Option, none, some, ◌≡◌, ◌≢◌, refl, ◌∙◌, arith,
  if◌then◌else◌, Bytes, length, length-append, Result, done, failed, Option-cases, inl, inr,
  append_assoc, append-nil, All, Lacks, All-append, strchr-Lacks, strchr-append,
}
use robsd.Interpolate.{variable_name, substitute, interpolate_inner, interpolate}

pub data Chunk : Type 0 where
  text : Bytes → Chunk
  variable : Bytes → Chunk

-- The template as it is written.
unfoldable pub print : List Chunk → Bytes
print [] = []
print (text t ∷ cs) = t ++ print cs
print (variable x ∷ cs) = b'$' ∷ b'{' ∷ (x ++ b'}' ∷ print cs)

abbrev pub IsChunk : Chunk → Type 0
IsChunk (text t) = Lacks b'$' t
IsChunk (variable x) = (x ≢ []) × Lacks b'}' x

-- Text holds no `$`, and a variable has a name that can stand between braces.
abbrev pub IsTemplate : List Chunk → Type 0
IsTemplate = All IsChunk

abbrev pub join : Option Bytes → Option Bytes → Option Bytes
join (some a) (some b) = some (a ++ b)
join _ _ = none

-- The expansion, with `left` levels of variables in variables; `none` for an unknown variable, and
-- for a template nested too deeply.
module _ (env : Bytes → Option (List Chunk)) (ignore_errors : Bool) where
  unfoldable pub expand_with : (List Chunk → Option Bytes) → List Chunk → Option Bytes
  expand_with nested [] = some []
  expand_with nested (text t ∷ cs) = join (some t) (expand_with nested cs)
  expand_with nested (variable x ∷ cs) = elim (env x) [
    | none ↦
        if ignore_errors
        then join (some (print (variable x ∷ []))) (expand_with nested cs)
        else none
    | some value ↦ join (nested value) (expand_with nested cs)
  ]

  unfoldable pub expand : ℕ → List Chunk → Option Bytes
  expand zero cs = none
  expand (suc left) cs = expand_with (expand left) cs

abbrev pub print_value : Option (List Chunk) → Option Bytes
print_value none = none
print_value (some cs) = some (print cs)

abbrev pub IsValue : Option (List Chunk) → Type 0
IsValue none = Unit
IsValue (some cs) = IsTemplate cs

abbrev pub outcome : {S : Type 0} → Bytes → Option Bytes → S → Result Bytes × S
outcome bf none s = (failed, s)
outcome bf (some out) s = (done (bf ++ out), s)

-- How often the template has a variable.
variables : List Chunk → ℕ
variables [] = 0
variables (text t ∷ cs) = variables cs
variables (variable x ∷ cs) = suc (variables cs)

variables-print : (cs : List Chunk) → variables cs ≤ length (print cs)
unfolding variables print
variables-print [] = omega arith
variables-print (text t ∷ cs) = omega (arith, length-append {0} t (print cs), variables-print cs)
variables-print (variable x ∷ cs) =
    omega (arith, length-append {0} x (b'}' ∷ print cs), variables-print cs)

variable_name-print :
    (x rest : Bytes)
    → x ≢ []
    → Lacks b'}' x
    → variable_name (b'{' ∷ (x ++ b'}' ∷ rest)) ≡ some (x, rest)
unfolding variable_name
variable_name-print [] rest h l = absurd (h refl)
variable_name-print (c ∷ x) rest h l = rw (strchr-append (c ∷ x) rest b'}' l)

outcome-join :
    {S : Type 0} (bf t : Bytes) (o : Option Bytes) (s : S)
    → outcome (bf ++ t) o s ≡ outcome bf (join (some t) o) s
outcome-join bf t none s = refl
outcome-join bf t (some out) s = rw append_assoc

module _ {S : Type 0} (lookup : Bytes → S → Option Bytes × S) (ignore_errors : Bool)
    (env : Bytes → Option (List Chunk))
    (reads : (x : Bytes) (s : S) → lookup x s ≡ (print_value (env x), s))
    (well_formed : (x : Bytes) → IsValue (env x)) where
  inner_at_dollar :
      (nested : Bytes → Bytes → S → Result Bytes × S) (fuel : ℕ) (bf t vs : Bytes) (s : S)
      → Lacks b'$' t
      → interpolate_inner lookup ignore_errors nested (suc fuel) bf (t ++ b'$' ∷ vs) s
        ≡ substitute lookup ignore_errors
            (interpolate_inner lookup ignore_errors nested fuel)
            nested
            (bf ++ t)
            (variable_name vs)
            s
  unfolding interpolate_inner
  inner_at_dollar nested fuel bf t vs s l = ground (arith, strchr-append t vs b'$' l)

  module _ (nested : Bytes → Bytes → S → Result Bytes × S)
      (expand_nested : List Chunk → Option Bytes)
      (nested_lem : (bf : Bytes) (cs : List Chunk) (s : S)
        → IsTemplate cs
        → nested bf (print cs) s ≡ outcome bf (expand_nested cs) s) where
    substitute-print :
        (next : Bytes → Bytes → S → Result Bytes × S) (bf x : Bytes) (cs : List Chunk) (s : S)
        → ((bf : Bytes) (s : S)
            → next bf (print cs) s ≡ outcome bf (expand_with env ignore_errors expand_nested cs) s)
        → substitute lookup ignore_errors next nested bf (some (x, print cs)) s
          ≡ outcome bf (expand_with env ignore_errors expand_nested (variable x ∷ cs)) s
    unfolding substitute expand_with print
    substitute-print next bf x cs s hn = elim (Option-cases (env x)) [
      | inl e ↦
          let shown : Bytes = b'$' ∷ b'{' ∷ x ++ b'}' ∷ [] in
          let later = expand_with env ignore_errors expand_nested cs in
          ground (
            arith,
            reads x s,
            hn (bf ++ shown) s,
            outcome-join bf shown later s,
            append_assoc bf (b'$' ∷ b'{' ∷ x) (b'}' ∷ []),
          )
      | inr (value, e) ↦
          let is_template : IsTemplate value = rw e at (well_formed x) in
          let later = expand_with env ignore_errors expand_nested cs in
          let inside = nested_lem bf value s is_template in
          elim (Option-cases (expand_nested value)) [
            | inl deep ↦ ground (arith, reads x s, inside)
            | inr (out, shallow) ↦
                ground (arith, reads x s, inside, hn (bf ++ out) s, outcome-join bf out later s)
          ]
    ]

    inner-print :
        (fuel : ℕ) (bf t : Bytes) (cs : List Chunk) (s : S)
        → variables cs < fuel
        → Lacks b'$' t
        → IsTemplate cs
        → interpolate_inner lookup ignore_errors nested fuel bf (t ++ print cs) s
          ≡ outcome (bf ++ t) (expand_with env ignore_errors expand_nested cs) s
    unfolding variables print expand_with
    inner-print zero bf t cs s h l w = absurd (omega arith)
    inner-print (suc fuel) bf t [] s h l w =
        unfold interpolate_inner in
        ground (arith, append-nil t, append-nil (bf ++ t), strchr-Lacks t b'$' l)
    inner-print (suc fuel) bf t (text u ∷ cs) s h l w =
        let later = expand_with env ignore_errors expand_nested cs in
        rw (← append_assoc t u (print cs)) (
          inner-print (suc fuel) bf (t ++ u) cs s h (All-append _ t u l w.0) w.1
          ∙ rw (← append_assoc bf t u) (outcome-join (bf ++ t) u later s))
    inner-print (suc fuel) bf t (variable x ∷ cs) s h l w =
        let vs = b'{' ∷ (x ++ b'}' ∷ print cs) in
        let next = interpolate_inner lookup ignore_errors nested fuel in
        let step =
          substitute-print next (bf ++ t) x cs s
            (λ bf s. inner-print fuel bf [] cs s (omega arith) tt w.1 ∙ rw append-nil) in
        inner_at_dollar nested fuel bf t vs s l
        ∙ rw (variable_name-print x (print cs) w.0.0 w.0.1) step

  -- If the callback's values are written templates, at most four deep, the result is the expansion
  -- of the tree: unknown variables fail, or stay as they are when lookup errors are ignored, and a
  -- tree that is deeper fails. (`left` is 4 for the callers.)
  pub interpolate-print :
      (left : ℕ) (bf : Bytes) (cs : List Chunk) (s : S)
      → IsTemplate cs
      → interpolate lookup ignore_errors left bf (print cs) s
        ≡ outcome bf (expand env ignore_errors left cs) s
  unfolding interpolate expand
  interpolate-print zero bf cs s w = refl
  interpolate-print (suc left) bf cs s w =
      inner-print (interpolate lookup ignore_errors left) (expand env ignore_errors left)
        (interpolate-print left) (suc (length (print cs))) bf [] cs s
        (omega (arith, variables-print cs)) tt w
      ∙ rw append-nil
