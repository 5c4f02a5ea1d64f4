-- ===== src/Config/State/Refines.antt =====
-- The variables of a configuration as a finite map: `config_append`, `config_find_or_create_list` with
-- `variable_value_concat`, and the search, against definitions and extensions of a function.
use mathlib.Core.Path.{fun_ext}
use robsd.Base.{
  Bool, true, false, List, [], ◌∷◌, ◌++◌, Option, none, some, Bytes, str_eq, str_eq_iff,
  str_eq_self, if◌then◌else◌, ◌≡◌, refl, sym, ap, ◌∙◌, arith, append_assoc, append-nil, Bool-cases,
  Option-cases, inl, inr,
}
use robsd.Config.Value.{
  VariableValue, invalid, integer, string, directory, list, concat_loop, variable_value_concat,
}
use robsd.Config.State.{
  Variable, variable, Config, config_append, find_variable, present_in, config_present,
  update_variable, create_list, concat_to,
}

abbrev pub Map : Type 0
Map = Bytes → Option VariableValue

unfoldable pub variables_of : Config → Map
variables_of cf name = find_variable cf.variables name

-- The first definition of a name stays.
unfoldable pub define_at : Option VariableValue → Bool → VariableValue → Option VariableValue
define_at (some old) here val = some old
define_at none true val = some val
define_at none false val = none

unfoldable pub define : Map → Bytes → VariableValue → Map
unfolding define_at
define f name val m = define_at (f m) (str_eq name m) val

unfoldable pub put : Map → Bytes → VariableValue → Map
put f name val m = if str_eq name m then some val else f m

-- Values put behind those of a list, which is there afterwards.
extend_at : Map → Bytes → List Bytes → Option VariableValue → Option Map
unfolding put
extend_at f name strs none = some (put f name (list strs))
extend_at f name strs (some (list old)) = some (put f name (list (old ++ strs)))
extend_at f name strs (some _) = none

unfoldable pub extend : Map → Bytes → List Bytes → Option Map
unfolding extend_at
extend f name strs = extend_at f name strs (f name)

-- The changes that the parsers make.
pub data Change : Type 0 where
  append : Bytes → VariableValue → Change
  concat : Bytes → List Bytes → Change

unfoldable pub apply : Change → Config → Option Config
apply (append name val) cf = some (config_append cf name val)
apply (concat name strs) cf = concat_to cf name (list strs)

unfoldable pub spec : Change → Map → Option Map
unfolding define extend
spec (append name val) f = some (define f name val)
spec (concat name strs) f = extend f name strs

pub find-snoc :
    (vas : List Variable) (name : Bytes) (val : VariableValue) (m : Bytes)
    → find_variable (vas ++ variable name val ∷ []) m
      ≡ define_at (find_variable vas m) (str_eq name m) val
unfolding find_variable define_at
find-snoc [] name val m = ground arith
find-snoc (va ∷ vas) name val m = ground (arith, find-snoc vas name val m)

append_lem :
    (cf : Config) (name : Bytes) (val : VariableValue)
    → variables_of (config_append cf name val) ≡ define (variables_of cf) name val
unfolding variables_of define config_append
append_lem cf name val = fun_ext (λ m. find-snoc cf.variables name val m)

not_both : (a b m : Bytes) → str_eq a b ≡ false → str_eq a m ≡ true → str_eq b m ≡ false
not_both a b m e f = elim (Bool-cases (str_eq b m)) [
  | inr g ↦ g
  | inl g ↦
      let q : a ≡ b = (str_eq_iff a m).0 f ∙ sym ((str_eq_iff b m).0 g) in
      absurd (ground (arith, (str_eq_iff a b).1 q))
]

pub find-update :
    (vas : List Variable) (name : Bytes) (old new : VariableValue) (m : Bytes)
    → find_variable vas name ≡ some old
    → find_variable (update_variable vas name new) m
      ≡ (if str_eq name m then some new else find_variable vas m)
unfolding find_variable update_variable
find-update [] name old new m h = absurd (cc)
find-update (va ∷ vas) name old new m h = elim (Bool-cases (str_eq va.va_name name)) [
  | inl e ↦
      let q : va.va_name ≡ name = (str_eq_iff va.va_name name).0 e in
      let s = ap (λ x. str_eq x m) q in rw (update_variable, e) (ground (arith, s))
  | inr e ↦
      rw (update_variable, e)
        (elim (Bool-cases (str_eq va.va_name m)) [
          | inr f ↦ ground (arith, find-update vas name old new m (ground arith))
          | inl f ↦
              let other : str_eq name m ≡ false = not_both va.va_name name m e f in
              rw (f, other) refl
        ])
]

present_find :
    (vas : List Variable) (name : Bytes)
    → present_in vas name ≡ true
    → (val : VariableValue) × (find_variable vas name ≡ some val)
unfolding present_in find_variable
present_find [] name h = absurd (cc)
present_find (va ∷ vas) name h = elim (Bool-cases (str_eq va.va_name name)) [
  | inl e ↦ rw (find_variable, e) (va.va_val, refl)
  | inr e ↦ rw (find_variable, e) (present_find vas name (ground arith))
]

absent_find :
    (vas : List Variable) (name : Bytes)
    → present_in vas name ≡ false
    → find_variable vas name ≡ none
unfolding present_in find_variable
absent_find [] name h = refl
absent_find (va ∷ vas) name h = ground (arith, absent_find vas name (ground arith))

pub concat_loop_lem : (xs ys : List Bytes) → concat_loop xs ys ≡ xs ++ ys
unfolding concat_loop
concat_loop_lem xs [] = sym (append-nil xs)
concat_loop_lem xs (y ∷ ys) = concat_loop_lem (xs ++ y ∷ []) ys ∙ append_assoc xs (y ∷ []) ys

-- The abstract state of an outcome.
abbrev pub state_of : Option Config → Option Map
state_of none = none
state_of (some cf) = some (variables_of cf)

-- A variable that is there is changed in place.
update_lem :
    (cf : Config) (name : Bytes) (old new : VariableValue)
    → find_variable cf.variables name ≡ some old
    → variables_of (record cf { variables = update_variable cf.variables name new })
      ≡ put (variables_of cf) name new
unfolding variables_of put
update_lem cf name old new h = fun_ext (λ m. find-update cf.variables name old new m h)

-- A name that is looked up at itself, or elsewhere.
put_new :
    (cf : Config) (name : Bytes) (val val' : VariableValue)
    → find_variable cf.variables name ≡ none
    → put (define (variables_of cf) name val') name val ≡ put (variables_of cf) name val
unfolding put define variables_of define_at
put_new cf name val val' h = fun_ext (λ m. ground arith)

concat_there :
    (cf cf' : Config) (name : Bytes) (old : VariableValue) (strs : List Bytes)
    → create_list cf name ≡ cf'
    → find_variable cf'.variables name ≡ some old
    → state_of (concat_to cf name (list strs)) ≡ extend_at (variables_of cf') name strs (some old)
unfolding concat_to extend_at variable_value_concat
concat_there cf cf' name (list xs) strs c f =
    rw (concat_to, c)
      (rw f (
        rw c (
          ap some (
            update_lem cf' name (list xs) (list (concat_loop xs strs)) f
            ∙ ap (λ l. put (variables_of cf') name (list l)) (concat_loop_lem xs strs)))))
concat_there cf cf' name invalid strs c f = rw (concat_to, c) (rw f refl)
concat_there cf cf' name (integer v) strs c f = rw (concat_to, c) (rw f refl)
concat_there cf cf' name (string str) strs c f = rw (concat_to, c) (rw f refl)
concat_there cf cf' name (directory str) strs c f = rw (concat_to, c) (rw f refl)

created :
    (cf : Config) (name : Bytes)
    → create_list cf name
      ≡ (if present_in cf.variables name then cf else config_append cf name (list []))
unfolding create_list config_present
created cf name = refl

concat_lem :
    (cf : Config) (name : Bytes) (strs : List Bytes)
    → state_of (concat_to cf name (list strs)) ≡ extend (variables_of cf) name strs
unfolding extend extend_at variables_of define_at config_append
concat_lem cf name strs = elim (Bool-cases (present_in cf.variables name)) [
  | inl e ↦
      let (val, f) = present_find cf.variables name e in
      concat_there cf cf name val strs (created cf name ∙ rw e refl) f
      ∙ ap (extend_at (variables_of cf) name strs) (sym f)
  | inr e ↦
      let f = absent_find cf.variables name e in
      let cf' = config_append cf name (list []) in
      let g : find_variable cf'.variables name ≡ some (list []) =
        find-snoc cf.variables name (list []) name ∙ rw (f, str_eq_self name) refl in
      concat_there cf cf' name (list []) strs (created cf name ∙ rw e refl) g
      ∙ ap some (
          ap (λ h. put h name (list strs)) (append_lem cf name (list []))
          ∙ put_new cf name (list strs) (list []) f)
      ∙ ap (extend_at (variables_of cf) name strs) (sym f)
]

-- One change.
apply-spec : (c : Change) (cf : Config) → state_of (apply c cf) ≡ spec c (variables_of cf)
unfolding apply spec
apply-spec (append name val) cf = ap some (append_lem cf name val)
apply-spec (concat name strs) cf = concat_lem cf name strs

-- Changes one behind the other, up to one that fails.
unfoldable pub apply_all : List Change → Config → Option Config
unfolding apply
apply_all [] cf = some cf
apply_all (c ∷ cs) cf = elim (apply c cf) [ none ↦ none | some cf' ↦ apply_all cs cf' ]

unfoldable pub spec_all : List Change → Map → Option Map
unfolding spec
spec_all [] f = some f
spec_all (c ∷ cs) f = elim (spec c f) [ none ↦ none | some f' ↦ spec_all cs f' ]

-- The list of variables implements a finite map: for any sequence of definitions and of lists put
-- behind a variable, the search finds in the configuration what the same changes make of the function
-- that it was before, where the first definition of a name stays and a list is extended in place; and
-- the sequence fails, at a variable that holds no list, exactly when it does so on functions.
pub apply_all-spec_all :
    (cs : List Change) (cf : Config) → state_of (apply_all cs cf) ≡ spec_all cs (variables_of cf)
unfolding apply_all spec_all
apply_all-spec_all [] cf = refl
apply_all-spec_all (c ∷ cs) cf = elim (Option-cases (apply c cf)) [
  | inl e ↦
      let s : spec c (variables_of cf) ≡ none = sym (apply-spec c cf) ∙ ap state_of e in
      rw (apply_all, e, spec_all, s) refl
  | inr (cf', e) ↦
      let s : spec c (variables_of cf) ≡ some (variables_of cf') =
        sym (apply-spec c cf) ∙ ap state_of e in
      rw (apply_all, e, spec_all, s) (apply_all-spec_all cs cf')
]
