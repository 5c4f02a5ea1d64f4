-- ===== src/Step/Assigned.antt =====
-- What `step_set_keyval` does to the fields of a step: the one that the operand names gets the value,
-- the others stay.
use robsd.Base.{
  ℕ, Bytes, false, List, [], ◌∷◌, ◌++◌, some, str_eq, str_eq_iff, strchr, get_elem?, get_or-set,
  ◌≡◌, ◌⊎◌, inl, inr, arith, refl, sym, ap, ◌∙◌, Option-cases, Bool-cases, ℤ, ◌==◌,
}
use mathlib.Core.Path.{subst}
use robsd.Strtonum.{number, strtonum, llong_min, llong_max}
use robsd.Step.{
  Step, StepField, StepFieldType, unknown, string, integer, FieldDefinition, fields,
  find_definition, field_at, set_field_at, no_field, set_value, step_set_field, step_set_keyval,
}
use robsd.Step.Complete.{InTable, table, Number-cases, find_definition-All}
use robsd.Step.Fields.{string_field, integer_field}

-- The field that a text gives, for a type.
abbrev pub HoldsText : StepFieldType → Bytes → StepField → Type 0
HoldsText unknown val f = ⊥
HoldsText string val f = f ≡ string_field val
HoldsText integer val f =
    (v : ℤ) × (strtonum val llong_min llong_max ≡ number v) × (f ≡ integer_field v)

set_value-HoldsText :
    (st : Step) (fd : FieldDefinition) (type : StepFieldType) (val : Bytes)
    → (set_value st fd type val).0 ≡ false
    → (f : StepField) × ((set_value st fd type val).1 ≡ set_field_at st fd.fd_index f)
      × HoldsText type val f
unfolding set_value
set_value-HoldsText st fd unknown val h = absurd (cc)
set_value-HoldsText st fd string val h = (string_field val, refl, refl)
set_value-HoldsText st fd integer val h = elim (Number-cases (strtonum val llong_min llong_max)) [
  | inl (v, e) ↦ (integer_field v, ground (arith, e), (v, e, refl))
  | inr e ↦ absurd (ground arith)
]

definition_name :
    (fds : List FieldDefinition) (name : Bytes) (fd : FieldDefinition)
    → find_definition fds name ≡ some fd
    → fd.fd_name ≡ name
unfolding find_definition
definition_name [] name fd h = absurd (cc)
definition_name (x ∷ xs) name fd h = elim (Bool-cases (str_eq x.fd_name name)) [
  | inl e ↦
      let q : x ≡ fd = ground arith in ap (λ d. d.fd_name) (sym q) ∙ (str_eq_iff x.fd_name name).0 e
  | inr e ↦ definition_name xs name fd (ground arith)
]

strchr-split : (s : Bytes) (c : ℕ) (r : Bytes × Bytes) → strchr s c ≡ some r → s ≡ r.0 ++ c ∷ r.1
unfolding strchr
strchr-split [] c r h = absurd (cc)
strchr-split (x ∷ s) c r h = elim (Bool-cases (x == c)) [
  | inl e ↦
      let q : ([], s) ≡ r = cc (rw (strchr, e) at h) in
      let p : x ≡ c = ground arith in rw (← q) (ap (λ n. n ∷ s) p)
  | inr e ↦ elim (Option-cases (strchr s c)) [
    | inl f ↦ absurd (ground arith)
    | inr (q, f) ↦
        let p : (x ∷ q.0, q.1) ≡ r = cc (rw (strchr, e, f) at h) in
        rw (← p) (ap (λ l. x ∷ l) (strchr-split s c q f))
  ]
]

-- A field is as it was, or the operand is its name and a text, and it holds that text.
abbrev pub Sets : FieldDefinition → Bytes → Step → Step → Type 0
Sets fd kv st st' =
    (field_at st' fd.fd_index ≡ field_at st fd.fd_index)
    ⊎ ((val : Bytes) × (kv ≡ fd.fd_name ++ b'=' ∷ val)
        × HoldsText fd.fd_type val (field_at st' fd.fd_index))

field-Sets :
    (st : Step) (name val : Bytes) (fd : FieldDefinition)
    → InTable fd
    → (step_set_field st name val).0 ≡ false
    → Sets fd (name ++ b'=' ∷ val) st (step_set_field st name val).1
unfolding step_set_field
field-Sets st name val fd t h = elim (Option-cases (find_definition fields name)) [
  | inl e ↦ absurd (cc (rw (step_set_field, e) at h))
  | inr (fd', e) ↦
      let t' = find_definition-All InTable fields name fd' table e in
      let h' : (set_value st fd' fd'.fd_type val).0 ≡ false = rw (step_set_field, e) at h in
      let (f, q, o) = set_value-HoldsText st fd' fd'.fd_type val h' in
      let same : (step_set_field st name val).1 ≡ set_field_at st fd'.fd_index f =
        ground (arith, e, q) in
      rw same (elim (get_or-set st.st_fields fd'.fd_index fd.fd_index f no_field) [
        | inr g ↦ inl g
        | inl (i, g) ↦
            let s : some fd' ≡ some fd = sym t' ∙ ap (get_elem? fields) i ∙ t in
            let p : fd' ≡ fd = cc in
            let n : name ≡ fd.fd_name =
              sym (definition_name fields name fd' e) ∙ ap (λ d. d.fd_name) p in
            inr (
              val,
              ap (λ x. x ++ b'=' ∷ val) n,
              subst (HoldsText fd.fd_type val) (sym g) (subst (λ d. HoldsText d.fd_type val f) p o),
            )
      ])
]

pub keyval-Sets :
    (st : Step) (kv : Bytes) (fd : FieldDefinition)
    → InTable fd
    → (step_set_keyval st kv).0 ≡ false
    → Sets fd kv st (step_set_keyval st kv).1
unfolding step_set_keyval
keyval-Sets st kv fd t h = elim (Option-cases (strchr kv b'=')) [
  | inl e ↦ absurd (cc (rw (step_set_keyval, e) at h))
  | inr (r, e) ↦
      let h' : (step_set_field st r.0 r.1).0 ≡ false = rw (step_set_keyval, e) at h in
      rw (step_set_keyval, e)
        (subst (λ k. Sets fd k st (step_set_field st r.0 r.1).1) (sym (strchr-split kv b'=' r e))
          (field-Sets st r.0 r.1 fd t h'))
]
