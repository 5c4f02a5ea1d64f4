-- ===== src/RobsdStep/Select.antt =====
-- The step that robsd-step -R selects.
use robsd.Base.{
  ℕ, zero, suc, ◌-◌, ◌<◌, List, Option, none, some, Bytes, length, ℤ, pos, negsuc, ◌≡◌, arith,
}
use mathlib.Core.Path.{subst}
use robsd.Step.{Step, has_name}
use robsd.Step.Find.{IsSearch, IsSearch-lt, found_by_name}
use robsd.RobsdStep.{by_number, select}

by_number_lt : (steps : List Step) (id : ℤ) (i : ℕ) → by_number steps id ≡ some i → i < length steps
unfolding by_number
by_number_lt steps (pos zero) i h = cc
by_number_lt steps (pos (suc n)) i h = ground arith
by_number_lt steps (negsuc n) i h = ground arith

-- The step that `steps_read` selects, by its name or by its number, is one of the file.
pub select_lt :
    (steps : List Step) (name : Option Bytes) (id : ℤ) (i : ℕ)
    → select steps name id ≡ some i
    → i < length steps
unfolding select
select_lt steps none id i h = by_number_lt steps id i h
select_lt steps (some name) id i h =
    let found = found_by_name steps name in
    IsSearch-lt (has_name name) steps i (subst (IsSearch (has_name name) steps) h found)
  where
    pos_zero : ℤ
    pos_zero = pos 0

-- Every step of a file of `length steps` steps is selected by its number, from 1, and by a negative
-- number, from -1 for the last.
pub select_by_number :
    (steps : List Step) (i : ℕ)
    → i < length steps
    → (select steps none (pos (suc i)) ≡ some i)
      × (select steps none (negsuc (length steps - suc i)) ≡ some i)
unfolding select by_number
select_by_number steps i h = (ground arith, ground arith)
