-- ===== src/Config/State/Keeps.antt =====
-- What the operations on a configuration keep: what none of them changes, and that no search calls
-- itself without end.
use mathlib.Core.Path.{subst}
use robsd.Base.{
  Bool, true, false, not, ◌||◌, List, Option, none, some, Bytes, codes, strchr, ◌≡◌, ◌⊎◌, refl, sym,
  ◌∙◌, inl, inr,
}
use robsd.Config.Value.{VariableValue, string, directory}
use robsd.Config.Grammar.{Grammar, config_find_grammar_for_interpolation}
use robsd.Config.State.{Config, config_append, find_variable, config_default_rdomain, concat_to}
use robsd.Config.State.Extends.{
  Grows, Extends, Extends-refl, Extends-trans, append-Extends, rdomain-Extends, concat_to-Extends,
  concat_to-stuck,
}

-- A text without variables.
unfoldable pub is_plain : VariableValue → Bool
is_plain (string str) = elim (strchr str b'$') [ none ↦ true | some r ↦ false ]
is_plain (directory str) = elim (strchr str b'$') [ none ↦ true | some r ↦ false ]
is_plain _ = false

-- `robsddir` has a value that is no text without variables.
abbrev pub IsDependent : Config → Type 0
IsDependent cf =
    (val : VariableValue) × (find_variable cf.variables (codes "robsddir") ≡ some val)
    × (is_plain val ≡ false)

Grows-is_plain : (a b : VariableValue) → Grows a b → is_plain a ≡ false → is_plain b ≡ false
unfolding is_plain
Grows-is_plain a b (inl e) h = rw e h
Grows-is_plain a b (inr (xs, ys, e, f)) h = rw f refl

pub IsDependent-Extends : (cf cf' : Config) → Extends cf cf' → IsDependent cf → IsDependent cf'
IsDependent-Extends cf cf' x (val, e, h) =
    let (val', e', g) = x.values (codes "robsddir") val e in (val', e', Grows-is_plain val val' g h)

unfoldable pub is_required : Option Grammar → Bool
is_required none = true
is_required (some gr) = gr.gr_flags.req

unfoldable pub is_constant : Option Grammar → Bool
is_constant none = true
is_constant (some gr) = gr.gr_flags.req || not gr.gr_flags.is_fun

-- A grammar whose defaults search for variables that have no default of this kind themselves.
pub record IsShallow (grs : List Grammar) : Type 0 where
  pub robsddir : is_required (config_find_grammar_for_interpolation grs (codes "robsddir")) ≡ true
  pub parallel : is_constant (config_find_grammar_for_interpolation grs (codes "parallel")) ≡ true
  pub timeout :
      is_constant (config_find_grammar_for_interpolation grs (codes "regress-timeout")) ≡ true

-- No search got stuck, but for such a `robsddir`.
abbrev pub Searches : Config → Config → Type 0
Searches cf cf' = IsShallow cf.grammar → cf.stuck ≡ false → (cf'.stuck ≡ false) ⊎ IsDependent cf'

pub record Keeps (cf cf' : Config) : Type 0 where
  pub extends : Extends cf cf'
  pub searches : Searches cf cf'

pub quiet-Keeps : (cf cf' : Config) → Extends cf cf' → cf'.stuck ≡ cf.stuck → Keeps cf cf'
quiet-Keeps cf cf' x e = record { extends = x; searches = λ g h. inl (e ∙ h) }

pub Keeps-refl : (cf : Config) → Keeps cf cf
Keeps-refl cf = quiet-Keeps cf cf (Extends-refl cf) refl

pub Keeps-trans : (a b c : Config) → Keeps a b → Keeps b c → Keeps a c
Keeps-trans a b c k l = record {
  extends = Extends-trans a b c k.extends l.extends;
  searches = λ g h. elim (k.searches g h) [
    | inr d ↦ inr (IsDependent-Extends b c l.extends d)
    | inl s ↦ l.searches (subst IsShallow (sym k.extends.same_grammar) g) s
  ];
}

pub append-Keeps :
    (cf : Config) (name : Bytes) (val : VariableValue) → Keeps cf (config_append cf name val)
unfolding config_append
append-Keeps cf name val = quiet-Keeps cf _ (append-Extends cf name val) refl

pub rdomain-Keeps : (cf : Config) → Keeps cf (config_default_rdomain cf).1
unfolding config_default_rdomain
rdomain-Keeps cf = quiet-Keeps cf _ (rdomain-Extends cf) refl

pub concat_to-Keeps :
    (cf cf' : Config) (name : Bytes) (val : VariableValue)
    → concat_to cf name val ≡ some cf'
    → Keeps cf cf'
concat_to-Keeps cf cf' name val h =
    quiet-Keeps cf cf' (concat_to-Extends cf cf' name val h) (concat_to-stuck cf cf' name val h)
