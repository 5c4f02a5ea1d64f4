-- ===== src/Config/State/Extends.antt =====
-- What no operation on a configuration changes: its mode, path, grammar and steps, and the names of
-- the variables that it has. A value stays, or is a list that grows at its end.
use mathlib.Core.Path.{subst}
use robsd.Base.{
  str_eq_iff, ◌⊎◌, ℕ, suc, ◌≤◌, true, false, List, [], ◌∷◌, ◌++◌, some, Bytes, str_eq, map, ◌≡◌,
  refl, sym, ap, ◌∙◌, ◌==◌, arith, append-nil, append_assoc, Bool-cases, Option-cases, inl, inr,
}
use robsd.Config.Value.{
  VariableValue, invalid, integer, string, directory, list, concat_loop, variable_value_concat,
}
use robsd.Config.State.Refines.{define_at, find-snoc, find-update, concat_loop_lem}
use robsd.Config.State.{
  Variable, Config, variable, config_append, find_variable, next_rdomain, rdomain_min, rdomain_max,
  config_default_rdomain, update_variable, create_list, concat_to, config_present,
}

abbrev pub names : List Variable → List Bytes
names vas = map (λ va. va.va_name) vas

-- The counter from which the next rdomain is taken.
pub record IsCounter (n : ℕ) : Type 0 where
  pub above : rdomain_min ≤ n
  pub below : n ≤ rdomain_max

abbrev pub Grows : VariableValue → VariableValue → Type 0
Grows val val' =
    (val' ≡ val)
    ⊎ ((xs : List Bytes) × (ys : List Bytes) × (val ≡ list xs) × (val' ≡ list (xs ++ ys)))

Grows-trans : (a b c : VariableValue) → Grows a b → Grows b c → Grows a c
Grows-trans a b c (inl e) g = subst (λ v. Grows v c) e g
Grows-trans a b c (inr g) (inl e) = subst (Grows a) (sym e) (inr g)
Grows-trans a b c (inr (xs, ys, e, f)) (inr (xs', ys', e', f')) =
    let q : list (xs ++ ys) ≡ list xs' = sym f ∙ e' in
    let p : xs ++ ys ≡ xs' = cc in
    inr
      (xs, ys ++ ys', e, f' ∙ ap (λ l. list (l ++ ys')) (sym p) ∙ ap list (append_assoc xs ys ys'))

pub record Extends (cf cf' : Config) : Type 0 where
  pub same_mode : cf'.mode ≡ cf.mode
  pub same_path : cf'.path ≡ cf.path
  pub same_grammar : cf'.grammar ≡ cf.grammar
  pub same_steps : cf'.steps ≡ cf.steps
  pub not_early : cf.early ≡ false → cf'.early ≡ false
  pub counter : IsCounter cf.rdomain → IsCounter cf'.rdomain
  pub values :
      (name : Bytes) (val : VariableValue)
      → find_variable cf.variables name ≡ some val
      → (val' : VariableValue) × (find_variable cf'.variables name ≡ some val') × Grows val val'
  pub more_names : (new : List Bytes) × (names cf'.variables ≡ names cf.variables ++ new)

pub Extends-refl : (cf : Config) → Extends cf cf
Extends-refl cf = record {
  same_mode = refl;
  same_path = refl;
  same_grammar = refl;
  same_steps = refl;
  not_early = λ e. e;
  counter = λ c. c;
  values = λ name val e. (val, e, inl refl);
  more_names = ([], sym (append-nil (names cf.variables)));
}

pub Extends-trans : (a b c : Config) → Extends a b → Extends b c → Extends a c
Extends-trans a b c k l =
    let (new, e) = k.more_names in
    let (more, f) = l.more_names in
    record {
      same_mode = l.same_mode ∙ k.same_mode;
      same_path = l.same_path ∙ k.same_path;
      same_grammar = l.same_grammar ∙ k.same_grammar;
      same_steps = l.same_steps ∙ k.same_steps;
      not_early = λ h. l.not_early (k.not_early h);
      counter = λ h. l.counter (k.counter h);
      values = λ name val h.
          let (val', h', g) = k.values name val h in
          let (val'', h'', g') = l.values name val' h' in
          (val'', h'', Grows-trans val val' val'' g g');
      more_names =
          (new ++ more, f ∙ ap (λ ns. ns ++ more) e ∙ append_assoc (names a.variables) new more);
    }

-- A change of the variables only, to ones with the same names.
pub with_names-Extends :
    (cf : Config) (vas : List Variable)
    → names vas ≡ names cf.variables
    → ((name : Bytes) (val : VariableValue)
        → find_variable cf.variables name ≡ some val
        → (val' : VariableValue) × (find_variable vas name ≡ some val') × Grows val val')
    → Extends cf (record cf { variables = vas })
with_names-Extends cf vas e v = record {
  same_mode = refl;
  same_path = refl;
  same_grammar = refl;
  same_steps = refl;
  not_early = λ h. h;
  counter = λ h. h;
  values = v;
  more_names = ([], e ∙ sym (append-nil (names cf.variables)));
}

pub names-append :
    (vas : List Variable) (name : Bytes) (val : VariableValue)
    → names (vas ++ variable name val ∷ []) ≡ names vas ++ name ∷ []
names-append [] name val = refl
names-append (va ∷ vas) name val = ap (λ ns. va.va_name ∷ ns) (names-append vas name val)

pub append-Extends :
    (cf : Config) (name : Bytes) (val : VariableValue) → Extends cf (config_append cf name val)
unfolding config_append define_at
append-Extends cf name val = record {
  same_mode = refl;
  same_path = refl;
  same_grammar = refl;
  same_steps = refl;
  not_early = λ h. h;
  counter = λ h. h;
  values = λ m old e. (old, find-snoc cf.variables name val m ∙ rw (define_at, e) refl, inl refl);
  more_names = (name ∷ [], names-append cf.variables name val);
}

-- The numbers handed out lie between the bounds, the upper one excluded.
pub next_rdomain-IsCounter :
    (n : ℕ)
    → IsCounter n
    → (rdomain_min ≤ (next_rdomain n).0)
      × (suc (next_rdomain n).0 ≤ rdomain_max)
      × IsCounter (next_rdomain n).1
unfolding next_rdomain
next_rdomain-IsCounter n h = elim (Bool-cases (n == rdomain_max)) [
  | inl e ↦
      rw (next_rdomain, e)
        (omega arith, omega arith, record { above = omega arith; below = omega arith })
  | inr e ↦
      let a = h.above in
      let b = h.below in
      rw (next_rdomain, e)
        (omega arith, ground arith, record { above = omega arith; below = ground arith })
]

pub rdomain-Extends : (cf : Config) → Extends cf (config_default_rdomain cf).1
unfolding config_default_rdomain
rdomain-Extends cf = record {
  same_mode = refl;
  same_path = refl;
  same_grammar = refl;
  same_steps = refl;
  not_early = λ h. h;
  counter = λ h. (next_rdomain-IsCounter cf.rdomain h).2;
  values = λ name val e. (val, e, inl refl);
  more_names = ([], sym (append-nil (names cf.variables)));
}

pub stuck-Extends : (cf : Config) → Extends cf (record cf { stuck = true })
stuck-Extends cf = record {
  same_mode = refl;
  same_path = refl;
  same_grammar = refl;
  same_steps = refl;
  not_early = λ h. h;
  counter = λ h. h;
  values = λ name val e. (val, e, inl refl);
  more_names = ([], sym (append-nil (names cf.variables)));
}

names-update :
    (vas : List Variable) (name : Bytes) (val : VariableValue)
    → names (update_variable vas name val) ≡ names vas
unfolding update_variable
names-update [] name val = refl
names-update (va ∷ vas) name val = elim (Bool-cases (str_eq va.va_name name)) [
  | inl e ↦ rw (update_variable, e) refl
  | inr e ↦ rw (update_variable, e) (ap (λ ns. va.va_name ∷ ns) (names-update vas name val))
]

create_list-Extends : (cf : Config) (name : Bytes) → Extends cf (create_list cf name)
unfolding create_list
create_list-Extends cf name = elim (Bool-cases (config_present cf name)) [
  | inl e ↦ rw (create_list, e) (Extends-refl cf)
  | inr e ↦ rw (create_list, e) (append-Extends cf name (list []))
]

concat-Grows :
    (old val new : VariableValue) → variable_value_concat old val ≡ some new → Grows old new
unfolding variable_value_concat
concat-Grows (list xs) (list ys) new h =
    let q : list (concat_loop xs ys) ≡ new = cc in
    inr (xs, ys, refl, sym q ∙ ap list (concat_loop_lem xs ys))
concat-Grows (list xs) invalid new h = absurd (cc)
concat-Grows (list xs) (integer v) new h = absurd (cc)
concat-Grows (list xs) (string str) new h = absurd (cc)
concat-Grows (list xs) (directory str) new h = absurd (cc)
concat-Grows invalid val new h = absurd (cc)
concat-Grows (integer v) val new h = absurd (cc)
concat-Grows (string str) val new h = absurd (cc)
concat-Grows (directory str) val new h = absurd (cc)

update-values :
    (vas : List Variable) (name : Bytes) (old new val : VariableValue)
    → find_variable vas name ≡ some old
    → variable_value_concat old val ≡ some new
    → (m : Bytes) (v : VariableValue) → find_variable vas m ≡ some v
    → (v' : VariableValue) × (find_variable (update_variable vas name new) m ≡ some v') × Grows v v'
update-values vas name old new val e g m v h = elim (Bool-cases (str_eq name m)) [
  | inr f ↦ (v, find-update vas name old new m e ∙ rw f h, inl refl)
  | inl f ↦
      let p : name ≡ m = (str_eq_iff name m).0 f in
      let q : some old ≡ some v = sym e ∙ ap (find_variable vas) p ∙ h in
      let same : old ≡ v = cc in
      (
        new,
        find-update vas name old new m e ∙ rw f refl,
        subst (λ x. Grows x new) same (concat-Grows old val new g),
      )
]

pub concat_to-Extends :
    (cf cf' : Config) (name : Bytes) (val : VariableValue)
    → concat_to cf name val ≡ some cf'
    → Extends cf cf'
unfolding concat_to
concat_to-Extends cf cf' name val h =
    let created = create_list cf name in
    elim (Option-cases (find_variable created.variables name)) [
      | inl e ↦ absurd (ground arith)
      | inr (old, e) ↦ elim (Option-cases (variable_value_concat old val)) [
        | inl e2 ↦ absurd (ground arith)
        | inr (new, e2) ↦
            let vas = update_variable created.variables name new in
            let q : record created { variables = vas } ≡ cf' = ground arith in
            rw (← q) (
              Extends-trans cf created _ (create_list-Extends cf name) (
                with_names-Extends created vas (names-update created.variables name new)
                  (update-values created.variables name old new val e e2)))
      ]
    ]

create_list-stuck : (cf : Config) (name : Bytes) → (create_list cf name).stuck ≡ cf.stuck
unfolding create_list config_append
create_list-stuck cf name = elim (Bool-cases (config_present cf name)) [
  | inl e ↦ rw (create_list, e) refl
  | inr e ↦ rw (create_list, e) refl
]

pub concat_to-stuck :
    (cf cf' : Config) (name : Bytes) (val : VariableValue)
    → concat_to cf name val ≡ some cf'
    → cf'.stuck ≡ cf.stuck
unfolding concat_to
concat_to-stuck cf cf' name val h =
    let created = create_list cf name in
    elim (Option-cases (find_variable created.variables name)) [
      | inl e ↦ absurd (ground arith)
      | inr (old, e) ↦ elim (Option-cases (variable_value_concat old val)) [
        | inl e2 ↦ absurd (ground arith)
        | inr (new, e2) ↦
            let vas = update_variable created.variables name new in
            let q : record created { variables = vas } ≡ cf' = ground arith in
            ap (λ c. c.stuck) (sym q) ∙ create_list-stuck cf name
      ]
    ]
