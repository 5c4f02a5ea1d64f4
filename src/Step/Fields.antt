-- ===== src/Step/Fields.antt =====
-- The table of fields, and what setting and reading a field does.
use robsd.Base.{false, [], ◌∷◌, Bytes, ℤ, pos, ◌≡◌, refl}
use robsd.Strtonum.{strtonum}
use robsd.Step.{Step, StepField, string, integer, str, int64, no_field, step_init}

abbrev pub string_field : Bytes → StepField
string_field s = record { sf_type = string; sf_val = str s }

abbrev pub integer_field : ℤ → StepField
integer_field v = record { sf_type = integer; sf_val = int64 v }

-- What `step_init` makes: the optional fields have their defaults, and the others are empty.
abbrev pub initial_step : Step
initial_step = record {
  st_fields =
      no_field
      ∷ no_field
      ∷ no_field
      ∷ no_field
      ∷ integer_field (pos 0)
      ∷ string_field []
      ∷ no_field
      ∷ no_field
      ∷ integer_field (pos 0)
      ∷ [];
}

pub step_init_lem : step_init ≡ (false, initial_step)
unfolding step_init strtonum
step_init_lem = refl
