-- ===== src/Config/Regress/InPlace.antt =====
-- The value of a variable that was just put behind the others is replaced in place, as the parser of a
-- test's environment does: the variables that were there before stay.
use robsd.Base.{
  ℕ, zero, suc, false, List, [], ◌∷◌, ◌++◌, Bytes, codes, length, some, str_eq, ◌≡◌, refl, sym, ap,
  ◌∙◌, inl, inr, append_assoc, Bool-cases,
}
use robsd.Config.Value.{VariableValue}
use robsd.Config.State.{Config, Variable, config_append, find_variable}
use robsd.Config.State.Extends.{names, names-append}
use robsd.Config.State.Keeps.{Keeps, Keeps-trans, append-Keeps}
use robsd.Config.Regress.{set_at}

names-set_at :
    (n : ℕ) (val : VariableValue) (vas : List Variable) → names (set_at n val vas) ≡ names vas
unfolding set_at
names-set_at n val [] = refl
names-set_at zero val (va ∷ vas) = refl
names-set_at (suc n) val (va ∷ vas) = ap (λ ns. va.va_name ∷ ns) (names-set_at n val vas)

-- A variable that was there before the one at an index is found as before.
find-set_at :
    (old vas : List Variable) (new : List Bytes) (val : VariableValue) (m : Bytes)
    (v : VariableValue)
    → names vas ≡ names old ++ new
    → find_variable old m ≡ some v
    → find_variable (set_at (length old) val vas) m ≡ find_variable vas m
unfolding find_variable set_at
find-set_at [] vas new val m v e h = absurd (cc)
find-set_at (va ∷ old) [] new val m v e h = refl
find-set_at (va ∷ old) (vb ∷ vas) new val m v e h =
    let p : vb.va_name ≡ va.va_name = cc in
    let q : names vas ≡ names old ++ new = cc in
    elim (Bool-cases (str_eq vb.va_name m)) [
      | inl f ↦ rw f refl
      | inr f ↦
          let g : str_eq va.va_name m ≡ false = ap (λ n. str_eq n m) (sym p) ∙ f in
          rw f (find-set_at old vas new val m v q (rw (find_variable, g) at h))
    ]

find-set_other :
    (old : List Variable) (vas : List Variable) (name : Bytes) (new : List Bytes)
    (val : VariableValue) (m : Bytes)
    → names vas ≡ names old ++ name ∷ new
    → str_eq name m ≡ false
    → find_variable (set_at (length old) val vas) m ≡ find_variable vas m
unfolding find_variable set_at
find-set_other [] [] name new val m e h = refl
find-set_other (va ∷ old) [] name new val m e h = refl
find-set_other [] (vb ∷ vas) name new val m e h =
    let p : vb.va_name ≡ name = cc in
    let g : str_eq vb.va_name m ≡ false = ap (λ n. str_eq n m) p ∙ h in rw g refl
find-set_other (va ∷ old) (vb ∷ vas) name new val m e h =
    let q : names vas ≡ names old ++ name ∷ new = cc in
    elim (Bool-cases (str_eq vb.va_name m)) [
      | inl f ↦ rw f refl
      | inr f ↦ rw f (find-set_other old vas name new val m q h)
    ]

-- The variable that was put behind those of `cf` gets a new value.
pub set_at-Keeps :
    (cf cf' : Config) (name : Bytes) (defval val : VariableValue)
    → str_eq name (codes "robsddir") ≡ false
    → Keeps (config_append cf name defval) cf'
    → Keeps cf (record cf' { variables = set_at (length cf.variables) val cf'.variables })
unfolding config_append
set_at-Keeps cf cf' name defval val other l =
    let k = Keeps-trans cf (config_append cf name defval) cf' (append-Keeps cf name defval) l in
    let x = k.extends in
    let (more, f) = l.extends.more_names in
    let (new, e) = x.more_names in
    let vas = set_at (length cf.variables) val cf'.variables in
    let at_name : names cf'.variables ≡ names cf.variables ++ name ∷ more =
      f
      ∙ ap (λ ns. ns ++ more) (names-append cf.variables name defval)
      ∙ append_assoc (names cf.variables) (name ∷ []) more in
    record {
      extends = record {
        same_mode = x.same_mode;
        same_path = x.same_path;
        same_grammar = x.same_grammar;
        same_steps = x.same_steps;
        not_early = x.not_early;
        counter = x.counter;
        values = λ m v h.
            let (v', h', g) = x.values m v h in
            (v', find-set_at cf.variables cf'.variables new val m v e h ∙ h', g);
        more_names = (new, names-set_at (length cf.variables) val cf'.variables ∙ e);
      };
      searches = λ g h. elim (k.searches g h) [
        | inl s ↦ inl s
        | inr (v, h', p) ↦ inr (
          v,
          find-set_other cf.variables cf'.variables name more val (codes "robsddir") at_name other
              ∙ h',
          p,
        )
      ];
    }
