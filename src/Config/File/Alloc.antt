-- ===== src/Config/File/Alloc.antt =====
-- A configuration as it is allocated: what its grammar and its state promise, and parsing from there.
use mathlib.Core.Path.{subst}
use robsd.Base.{[], Option, none, some, Bytes, ◌≡◌, refl, Option-cases, inl, inr, str_eq, false}
use robsd.Mode.{
  RobsdMode, plain_robsd, robsd_cross, robsd_ports, robsd_regress, canvas, robsd_mode_parse,
}
use robsd.Config.Grammar.{config_find_grammar_for_interpolation, grammar_equals, fnmatch}
use robsd.Config.Grammar.Tables.{
  robsd_grammar, robsd_cross_grammar, robsd_ports_grammar, robsd_regress_grammar, canvas_grammar,
}
use robsd.Config.State.{System, Config}
use robsd.Config.State.Extends.{Extends}
use robsd.Config.State.Keeps.{IsShallow, is_required, is_constant}
use robsd.Config.File.{
  config_copy_grammar, config_with, config_robsd_init, config_robsd_cross_init,
  config_robsd_ports_init, config_robsd_regress_init, config_alloc, config_init, config_canvas_init,
}

-- As a configuration begins.
pub record IsFresh (cf : Config) : Type 0 where
  pub shallow : IsShallow cf.grammar
  pub not_stuck : cf.stuck ≡ false

robsd-IsShallow : (sys : System) → IsShallow (config_copy_grammar sys robsd_grammar)
unfolding config_copy_grammar config_find_grammar_for_interpolation is_required is_constant
    grammar_equals str_eq fnmatch
robsd-IsShallow sys = record { robsddir = refl; parallel = refl; timeout = refl }

cross-IsShallow : (sys : System) → IsShallow (config_copy_grammar sys robsd_cross_grammar)
unfolding config_copy_grammar config_find_grammar_for_interpolation is_required is_constant
    grammar_equals str_eq fnmatch
cross-IsShallow sys = record { robsddir = refl; parallel = refl; timeout = refl }

ports-IsShallow : (sys : System) → IsShallow (config_copy_grammar sys robsd_ports_grammar)
unfolding config_copy_grammar config_find_grammar_for_interpolation is_required is_constant
    grammar_equals str_eq fnmatch
ports-IsShallow sys = record { robsddir = refl; parallel = refl; timeout = refl }

regress-IsShallow : (sys : System) → IsShallow (config_copy_grammar sys robsd_regress_grammar)
unfolding config_copy_grammar config_find_grammar_for_interpolation is_required is_constant
    grammar_equals str_eq fnmatch
regress-IsShallow sys = record { robsddir = refl; parallel = refl; timeout = refl }

canvas-IsShallow : (sys : System) → IsShallow (config_copy_grammar sys canvas_grammar)
unfolding config_copy_grammar config_find_grammar_for_interpolation is_required is_constant
    grammar_equals str_eq fnmatch
canvas-IsShallow sys = record { robsddir = refl; parallel = refl; timeout = refl }

init-IsFresh :
    (sys : System) (m : RobsdMode) (path : Option Bytes) (cf : Config)
    → config_init sys m path ≡ some cf
    → IsFresh cf
unfolding config_init config_robsd_init config_robsd_cross_init config_robsd_ports_init
    config_robsd_regress_init config_canvas_init config_with
init-IsFresh sys plain_robsd path cf h =
    let q : config_robsd_init sys path ≡ cf = cc in
    subst IsFresh q (record { shallow = robsd-IsShallow sys; not_stuck = refl })
init-IsFresh sys robsd_cross path cf h =
    let q : config_robsd_cross_init sys path ≡ cf = cc in
    subst IsFresh q (record { shallow = cross-IsShallow sys; not_stuck = refl })
init-IsFresh sys robsd_ports path cf h =
    let q : config_robsd_ports_init sys path ≡ cf = cc in
    subst IsFresh q (record { shallow = ports-IsShallow sys; not_stuck = refl })
init-IsFresh sys robsd_regress path cf h =
    let q : config_robsd_regress_init sys path ≡ cf = cc in
    subst IsFresh q (record { shallow = regress-IsShallow sys; not_stuck = refl })
init-IsFresh sys canvas none cf h = absurd (cc)
init-IsFresh sys canvas (some path) cf h =
    let q : config_with canvas path (config_copy_grammar sys canvas_grammar) [] 0 ≡ cf = cc in
    subst IsFresh q (record { shallow = canvas-IsShallow sys; not_stuck = refl })

pub config_alloc-IsFresh :
    (sys : System) (mode : Bytes) (path : Option Bytes) (cf : Config)
    → config_alloc sys mode path ≡ some cf
    → IsFresh cf
unfolding config_alloc
config_alloc-IsFresh sys mode path cf h = elim (Option-cases (robsd_mode_parse mode)) [
  | inl e ↦ absurd (cc (rw (config_alloc, e) at h))
  | inr (m, e) ↦ init-IsFresh sys m path cf (rw (config_alloc, e) at h)
]
