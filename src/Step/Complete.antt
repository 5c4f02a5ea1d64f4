-- ===== src/Step/Complete.antt =====
-- The types of a step's fields, and `step_validate`.
use robsd.Base.{
  str_eq, Bytes, false, List, [], ◌∷◌, some, Bytes, get_elem?, get_or-set, ◌≡◌, ◌⊎◌, inl, inr,
  arith, refl, sym, ap, ◌∙◌, Option-cases, Bool-cases, All, All-map, All-zip, ℤ, ◌≤ℤ◌, pos,
}
use robsd.Strtonum.{Number, number, invalid, too_small, too_large, strtonum, llong_min, llong_max}
use mathlib.Core.Path.{subst}
use robsd.Strtonum.Print.{strtonum_bounds}
use robsd.Step.{
  Step, StepField, StepFieldType, unknown, string, integer, FieldDefinition, fields,
  find_definition, field_at, set_field_at, no_field, set_value, step_set_field, step_field_is_empty,
  missing_fields, step_validate,
}
use robsd.Step.Fields.{initial_step, string_field, integer_field}

-- A set field of this type; an integer is an int64.
abbrev pub IsOfType : StepFieldType → StepField → Type 0
IsOfType unknown f = ⊥
IsOfType string f = (s : Bytes) × (f ≡ string_field s)
IsOfType integer f = (v : ℤ) × (f ≡ integer_field v) × (llong_min ≤ℤ v) × (v ≤ℤ llong_max)

abbrev pub IsField : Step → FieldDefinition → Type 0
IsField st fd = IsOfType fd.fd_type (field_at st fd.fd_index)

-- While a row is read, a mandatory field may be empty.
abbrev pub MayBeField : Step → FieldDefinition → Type 0
MayBeField st fd = ((fd.fd_optional ≡ false) × (field_at st fd.fd_index ≡ no_field)) ⊎ IsField st fd

-- All fields of the table are there, with values of their types.
abbrev pub IsComplete : Step → Type 0
IsComplete st = All (IsField st) fields

abbrev pub IsPartial : Step → Type 0
IsPartial st = All (MayBeField st) fields

abbrev pub InTable : FieldDefinition → Type 0
InTable fd = get_elem? fields fd.fd_index ≡ some fd

pub table : All InTable fields
table = (refl, (refl, (refl, (refl, (refl, (refl, (refl, (refl, (refl, tt)))))))))

pub find_definition-All :
    (P : FieldDefinition → Type 0) (fds : List FieldDefinition) (name : Bytes)
    (fd : FieldDefinition)
    → All P fds
    → find_definition fds name ≡ some fd
    → P fd
unfolding find_definition
find_definition-All P [] name fd h e = cc
find_definition-All P (x ∷ xs) name fd h e = elim (Bool-cases (str_eq x.fd_name name)) [
  | inl same ↦ let q : x ≡ fd = ground arith in rw (← q) h.0
  | inr other ↦ find_definition-All P xs name fd h.1 (ground arith)
]

set-MayBeField :
    (st : Step) (fd fd' : FieldDefinition) (f : StepField)
    → InTable fd
    → InTable fd'
    → IsOfType fd.fd_type f
    → MayBeField st fd'
    → MayBeField (set_field_at st fd.fd_index f) fd'
set-MayBeField st fd fd' f t t' h m =
    elim (get_or-set st.st_fields fd.fd_index fd'.fd_index f no_field) [
      | inr e ↦ rw e m
      | inl (i, e) ↦
          let s : some fd ≡ some fd' = sym t ∙ ap (get_elem? fields) i ∙ t' in
          let q : fd ≡ fd' = cc in rw e (inr (rw (← q) h))
    ]

set-IsPartial :
    (st : Step) (fd : FieldDefinition) (f : StepField)
    → InTable fd
    → IsOfType fd.fd_type f
    → IsPartial st
    → IsPartial (set_field_at st fd.fd_index f)
set-IsPartial st fd f t h p =
    All-map (λ x. InTable x × MayBeField st x) (MayBeField (set_field_at st fd.fd_index f))
      (λ x m. set-MayBeField st fd x f t m.0 h m.1) fields
      (All-zip InTable (MayBeField st) fields table p)

pub Number-cases :
    (n : Number)
    → ((v : ℤ) × (n ≡ number v)) ⊎ ((n ≡ invalid) ⊎ ((n ≡ too_small) ⊎ (n ≡ too_large)))
Number-cases (number v) = inl (v, refl)
Number-cases invalid = inr (inl refl)
Number-cases too_small = inr (inr (inl refl))
Number-cases too_large = inr (inr (inr refl))

set_value-IsOfType :
    (st : Step) (fd : FieldDefinition) (type : StepFieldType) (val : Bytes)
    → (set_value st fd type val).0 ≡ false
    → (f : StepField) × ((set_value st fd type val).1 ≡ set_field_at st fd.fd_index f)
      × IsOfType type f
unfolding set_value
set_value-IsOfType st fd unknown val h = cc
set_value-IsOfType st fd string val h = (string_field val, refl, (val, refl))
set_value-IsOfType st fd integer val h = elim (Number-cases (strtonum val llong_min llong_max)) [
  | inl (v, e) ↦
      let b = strtonum_bounds val llong_min llong_max v e in
      (integer_field v, ground (arith, e), (v, refl, b.0, b.1))
  | inr e ↦ absurd (ground arith)
]

set_field_inversion :
    (st : Step) (name val : Bytes)
    → (step_set_field st name val).0 ≡ false
    → (fd : FieldDefinition) × (f : StepField) × InTable fd
      × ((step_set_field st name val).1 ≡ set_field_at st fd.fd_index f)
      × IsOfType fd.fd_type f
unfolding step_set_field
set_field_inversion st name val h = elim (Option-cases (find_definition fields name)) [
  | inl e ↦ absurd (cc (rw (step_set_field, e) at h))
  | inr (fd, e) ↦
      let t = find_definition-All InTable fields name fd table e in
      let h' : (set_value st fd fd.fd_type val).0 ≡ false = rw (step_set_field, e) at h in
      let (f, q, o) = set_value-IsOfType st fd fd.fd_type val h' in
      (fd, f, t, ground (arith, e, q), o)
]

-- Setting a field by its name keeps a step within the table.
pub set_field-IsPartial :
    (st : Step) (name val : Bytes)
    → IsPartial st
    → (step_set_field st name val).0 ≡ false
    → IsPartial (step_set_field st name val).1
set_field-IsPartial st name val p h =
    let (fd, f, t, q, o) = set_field_inversion st name val h in
    subst IsPartial (sym q) (set-IsPartial st fd f t o p)

pub initial-IsPartial : IsPartial initial_step
initial-IsPartial = (
  inl (refl, refl),
  (
    inl (refl, refl),
    (
      inl (refl, refl),
      (
        inl (refl, refl),
        (
          inr (pos 0, refl, omega arith, omega arith),
          (
            inr ([], refl),
            (
              inl (refl, refl),
              (inl (refl, refl), (inr (pos 0, refl, omega arith, omega arith), tt)),
            ),
          ),
        ),
      ),
    ),
  ),
)

-- With no mandatory field missing, a partial step is complete.
missing_fields-IsComplete :
    (st : Step) (fds : List FieldDefinition)
    → All (MayBeField st) fds
    → missing_fields st fds ≡ 0
    → All (IsField st) fds
unfolding missing_fields step_field_is_empty
missing_fields-IsComplete st [] p h = tt
missing_fields-IsComplete st (fd ∷ fds) (inl (e, f), p) h = absurd (ground arith)
missing_fields-IsComplete st (fd ∷ fds) (inr f, p) h =
    (f, missing_fields-IsComplete st fds p (ground arith))

pub validate-IsComplete : (st : Step) → IsPartial st → step_validate st ≡ false → IsComplete st
unfolding step_validate
validate-IsComplete st p h = missing_fields-IsComplete st fields p (ground arith)
