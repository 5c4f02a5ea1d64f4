-- ===== src/RobsdStep/Update.antt =====
-- What robsd-step -W changes in a step file.
use mathlib.Core.Path.{subst}
use robsd.Base.{
  ◌⊎◌, ◌++◌, ℕ, zero, suc, List, [], ◌∷◌, Option, none, some, Bytes, codes, length, length-set,
  get_elem?, set, ℤ, ◌≡◌, ◌≢◌, refl, ap, Bool-cases, Option-cases, inl, inr,
}
use robsd.Step.{
  Step, StepFile, steps_append, steps_find_by_id, step_init, step_set_field_integer,
  FieldDefinition, field_at,
}
use robsd.Step.Assigned.{HoldsText}
use robsd.RobsdStep.{set_keyvals, store_at, store_new, update_step}

get_elem-set :
    (xs : List Step) (i j : ℕ) (v : Step) → j ≢ i → get_elem? (set xs i v) j ≡ get_elem? xs j
get_elem-set [] i j v h = refl
get_elem-set (x ∷ xs) zero zero v h = absurd (h refl)
get_elem-set (x ∷ xs) zero (suc j) v h = refl
get_elem-set (x ∷ xs) (suc i) zero v h = refl
get_elem-set (x ∷ xs) (suc i) (suc j) v h = get_elem-set xs i j v (λ e. h (ap suc e))

-- What an update changes, given the index of the step that was found.
abbrev pub Changes : Option ℕ → StepFile → StepFile → Type 0
Changes none sf sf' = (st : Step) × (sf' ≡ steps_append sf st)
Changes (some i) sf sf' =
    (sf'.columns ≡ sf.columns)
    × (length sf'.steps ≡ length sf.steps)
    × ((j : ℕ) → j ≢ i → get_elem? sf'.steps j ≡ get_elem? sf.steps j)

at-Changes :
    (sf sf' : StepFile) (i : ℕ) (o : Option Step)
    → store_at sf i o ≡ some sf'
    → Changes (some i) sf sf'
unfolding store_at
at-Changes sf sf' i none h = cc
at-Changes sf sf' i (some st) h =
    let q : record sf { steps = set sf.steps i st } ≡ sf' = cc in
    subst (Changes (some i) sf) q
      (refl, length-set sf.steps i st, λ j ne. get_elem-set sf.steps i j st ne)

new-Changes :
    (sf sf' : StepFile) (o : Option Step) → store_new sf o ≡ some sf' → Changes none sf sf'
unfolding store_new
new-Changes sf sf' none h = cc
new-Changes sf sf' (some st) h = (st, cc)

-- An update changes only the step that `steps_find_by_id` found, in its place; where there is none, it
-- puts one step at the end and changes no other.
pub update-Changes :
    (sf sf' : StepFile) (id : ℤ) (kvs : List Bytes)
    → update_step sf id kvs ≡ some sf'
    → Changes (steps_find_by_id sf.steps id) sf sf'
unfolding update_step
update-Changes sf sf' id kvs h = elim (Option-cases (steps_find_by_id sf.steps id)) [
  | inr (i, e) ↦ rw e (at-Changes sf sf' i _ (rw (update_step, e) at h))
  | inl e ↦
      let r = step_set_field_integer step_init.1 (codes "step") id in
      rw e (elim (Bool-cases step_init.0) [
        | inl f ↦ absurd (cc (rw (update_step, e, f) at h))
        | inr f ↦ elim (Bool-cases r.0) [
          | inl g ↦ absurd (cc (rw (update_step, e, f, g) at h))
          | inr g ↦ new-Changes sf sf' (set_keyvals kvs r.1) (rw (update_step, e, f, g) at h)
        ]
      ])
]

abbrev pub IsOperand : Bytes → List Bytes → Type 0
IsOperand kv [] = ⊥
IsOperand kv (x ∷ kvs) = (x ≡ kv) ⊎ IsOperand kv kvs

-- A field of the table after operands are set: it is as it was, or one of the operands is its name and
-- a text, and it holds that text, an int64 for a number.
abbrev pub Assigned : List Bytes → Step → Step → FieldDefinition → Type 0
Assigned kvs st st' fd =
    (field_at st' fd.fd_index ≡ field_at st fd.fd_index)
    ⊎ ((val : Bytes) × IsOperand (fd.fd_name ++ b'=' ∷ val) kvs
        × HoldsText fd.fd_type val (field_at st' fd.fd_index))
