-- ===== src/Step/Find.antt =====
-- `steps_find_by_name` and `steps_find_by_id`: the first step that has the name, or the number.
use robsd.Base.{
  refl, ◌↔◌, get_or, codes, eqb_ℤ→eq, eq→eqb_ℤ, str_eq, str_eq_iff, ℕ, zero, suc, ◌+◌, ◌<◌, Bool,
  true, false, List, [], ◌∷◌, Option, none, some, Bytes, length, ℤ, All, ◌≡◌, arith, Bool-cases,
  inl, inr,
}
use robsd.Step.{
  Step, find_index, has_id, has_name, steps_find_by_id, steps_find_by_name, no_field,
  step_field_is_empty, get_integer, get_str, step_get_field, field_definition_find_by_name,
  find_definition,
}

-- The step at index `i` passes the test, and none before it does.
abbrev pub IsFirst : (Step → Bool) → ℕ → List Step → Type 0
IsFirst test i [] = ⊥
IsFirst test zero (st ∷ sts) = test st ≡ true
IsFirst test (suc i) (st ∷ sts) = (test st ≡ false) × IsFirst test i sts

abbrev pub Fails : (Step → Bool) → List Step → Type 0
Fails test = All (λ st. test st ≡ false)

-- What a search gives.
abbrev pub IsSearch : (Step → Bool) → List Step → Option ℕ → Type 0
IsSearch test sts none = Fails test sts
IsSearch test sts (some i) = IsFirst test i sts

Shifted : (test : Step → Bool) (n : ℕ) (sts : List Step) → Option ℕ → Type 0
Shifted test n sts none = Fails test sts
Shifted test n sts (some i) = (k : ℕ) × (i ≡ n + k) × IsFirst test k sts

shift_lem :
    (test : Step → Bool) (st : Step) (sts : List Step) (n : ℕ) (o : Option ℕ)
    → test st ≡ false
    → Shifted test (n + 1) sts o
    → Shifted test n (st ∷ sts) o
unfolding Shifted
shift_lem test st sts n none h s = (h, s)
shift_lem test st sts n (some i) h (k, e, f) = (suc k, omega arith, (h, f))

find_index-Shifted :
    (test : Step → Bool) (n : ℕ) (sts : List Step) → Shifted test n sts (find_index test n sts)
unfolding find_index Shifted
find_index-Shifted test n [] = tt
find_index-Shifted test n (st ∷ sts) = elim (Bool-cases (test st)) [
  | inl e ↦ rw (find_index, e) (0, omega arith, e)
  | inr e ↦
      rw (find_index, e)
        (shift_lem test st sts n (find_index test (n + 1) sts) e
          (find_index-Shifted test (n + 1) sts))
]

unshift :
    (test : Step → Bool) (sts : List Step) (o : Option ℕ)
    → Shifted test 0 sts o
    → IsSearch test sts o
unfolding Shifted
unshift test sts none s = s
unshift test sts (some i) (k, e, f) = let q : i ≡ k = omega arith in rw q f

pub found_by_name :
    (sts : List Step) (name : Bytes) → IsSearch (has_name name) sts (steps_find_by_name sts name)
unfolding steps_find_by_name
found_by_name sts name = unshift (has_name name) sts _ (find_index-Shifted (has_name name) 0 sts)

-- The field `step` is set, and is the number; the field `name` is set, and is the name.
abbrev pub HasId : ℤ → Step → Type 0
HasId id st =
    (step_field_is_empty (get_or st.st_fields 0 no_field) ≡ false)
    × (get_integer st (codes "step") ≡ id)

abbrev pub HasName : Bytes → Step → Type 0
HasName name st =
    (step_field_is_empty (get_or st.st_fields 1 no_field) ≡ false)
    × (get_str st (codes "name") ≡ name)

-- The step at an index is the first for which `P` holds; without an index, there is none.
abbrev pub IsFirstOf : (Step → Type 0) → List Step → Option ℕ → Type 0
IsFirstOf P [] none = Unit
IsFirstOf P [] (some i) = ⊥
IsFirstOf P (st ∷ sts) none = (¬ P st) × IsFirstOf P sts none
IsFirstOf P (st ∷ sts) (some zero) = P st
IsFirstOf P (st ∷ sts) (some (suc i)) = (¬ P st) × IsFirstOf P sts (some i)

search-IsFirstOf :
    (test : Step → Bool) (P : Step → Type 0)
    → ((st : Step) → (test st ≡ true) ↔ P st)
    → (sts : List Step) (o : Option ℕ) → IsSearch test sts o
    → IsFirstOf P sts o
search-IsFirstOf test P h [] none s = tt
search-IsFirstOf test P h [] (some i) s = s
search-IsFirstOf test P h (st ∷ sts) none (e, s) =
    (λ p. absurd (cc ((h st).1 p)), search-IsFirstOf test P h sts none s)
search-IsFirstOf test P h (st ∷ sts) (some zero) s = (h st).0 s
search-IsFirstOf test P h (st ∷ sts) (some (suc i)) (e, s) =
    (λ p. absurd (cc ((h st).1 p)), search-IsFirstOf test P h sts (some i) s)

has_id_iff : (id : ℤ) (st : Step) → (has_id id st ≡ true) ↔ HasId id st
unfolding has_id get_integer step_get_field field_definition_find_by_name find_definition str_eq
has_id_iff id st = elim (Bool-cases (step_field_is_empty (get_or st.st_fields 0 no_field))) [
  | inl e ↦ (λ h. absurd (ground arith), λ h. absurd (cc))
  | inr e ↦ rw (has_id, e) (λ h. (refl, eqb_ℤ→eq _ id h), λ h. eq→eqb_ℤ _ id h.1)
]

has_name_iff : (name : Bytes) (st : Step) → (has_name name st ≡ true) ↔ HasName name st
unfolding has_name get_str step_get_field field_definition_find_by_name find_definition str_eq
has_name_iff name st = elim (Bool-cases (step_field_is_empty (get_or st.st_fields 1 no_field))) [
  | inl e ↦ (λ h. absurd (ground arith), λ h. absurd (cc))
  | inr e ↦ rw (has_name, e) (λ h. (refl, (str_eq_iff _ name).0 h), λ h. (str_eq_iff _ name).1 h.1)
]

-- `steps_find_by_id` gives the index of the first step whose field `step` is set to the number, or NULL
-- where there is none, and `steps_find_by_name` that of the first whose field `name` is set to the name.
pub steps_find_lem :
    (sts : List Step) (id : ℤ) (name : Bytes)
    → IsFirstOf (HasId id) sts (steps_find_by_id sts id)
      × IsFirstOf (HasName name) sts (steps_find_by_name sts name)
unfolding steps_find_by_id
steps_find_lem sts id name = (
  search-IsFirstOf (has_id id) (HasId id) (has_id_iff id) sts _
      (unshift (has_id id) sts _ (find_index-Shifted (has_id id) 0 sts)),
  search-IsFirstOf (has_name name) (HasName name) (has_name_iff name) sts _
      (found_by_name sts name),
)

pub IsSearch-lt :
    (test : Step → Bool) (sts : List Step) (i : ℕ) → IsSearch test sts (some i) → i < length sts
IsSearch-lt test [] i s = absurd s
IsSearch-lt test (st ∷ sts) zero s = omega arith
IsSearch-lt test (st ∷ sts) (suc i) s = omega (arith, IsSearch-lt test sts i s.1)
