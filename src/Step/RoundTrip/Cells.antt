-- ===== src/Step/RoundTrip/Cells.antt =====
-- The cells of a row, read back into the step.
use robsd.Base.{
  true, get_or, str_eq, ℕ, ◌+◌, false, List, [], ◌∷◌, some, Bytes, ℤ, map, get_elem?, done, ◌≡◌,
  ◌≢◌, ◌∙◌, refl,
}
use robsd.Strtonum.{llong_min, llong_max, print_int}
use robsd.Strtonum.Print.{strtonum-print_int, print_int-cons}
use robsd.Step.{
  Step, FieldDefinition, fields, string, integer, unknown, set_field_at, find_definition,
  field_definition_find_by_name, set_value, step_set_field, missing_fields, step_field_is_empty,
  step_validate,
}
use robsd.Step.Fields.{initial_step, string_field, integer_field}
use robsd.Step.Parse.{row_value}
use robsd.Step.Stored.{Row, IsRow, IsInt64, to_step, cells}
use robsd.Step.RoundTrip.Rows.{fill, LastNonEmpty}

abbrev pub names : List Bytes
names = map (λ fd. fd.fd_name) fields

-- Column `col` of the file is the field `fd`.
record IsColumn (col : ℕ) (fd : FieldDefinition) : Type 0 where
  column : get_elem? names col ≡ some fd.fd_name
  known : find_definition fields fd.fd_name ≡ some fd

set_field_lem :
    (st : Step) (fd : FieldDefinition) (val : Bytes)
    → find_definition fields fd.fd_name ≡ some fd
    → step_set_field st fd.fd_name val ≡ set_value st fd fd.fd_type val
unfolding step_set_field
set_field_lem st fd val h = rw (step_set_field, h) refl

row_integer :
    (st : Step) (col : ℕ) (fd : FieldDefinition) (v : ℤ)
    → IsColumn col fd
    → fd.fd_type ≡ integer
    → IsInt64 v
    → row_value names st col (print_int v) ≡ done (set_field_at st fd.fd_index (integer_field v))
unfolding row_value field_definition_find_by_name set_value
row_integer st col fd v c t h =
    let set_lem : step_set_field st fd.fd_name (print_int v)
        ≡ (false, set_field_at st fd.fd_index (integer_field v)) =
      set_field_lem st fd (print_int v) c.known
      ∙ rw (t, set_value, strtonum-print_int v llong_min llong_max h.0 h.1 h.0 h.1) refl in
    rw (row_value, c.column) (rw c.known (rw set_lem refl))

row_string :
    (st : Step) (col : ℕ) (fd : FieldDefinition) (s : Bytes)
    → IsColumn col fd
    → fd.fd_type ≡ string
    → row_value names st col s ≡ done (set_field_at st fd.fd_index (string_field s))
unfolding row_value field_definition_find_by_name set_value
row_string st col fd s c t =
    let set_lem : step_set_field st fd.fd_name s
        ≡ (false, set_field_at st fd.fd_index (string_field s)) =
      set_field_lem st fd s c.known ∙ rw (t, set_value) refl in
    rw (row_value, c.column) (rw c.known (rw set_lem refl))

fill_integer :
    (st : Step) (col : ℕ) (fd : FieldDefinition) (v : ℤ) (cs : List Bytes)
    → IsColumn col fd
    → fd.fd_type ≡ integer
    → IsInt64 v
    → fill names st col (print_int v ∷ cs)
      ≡ fill names (set_field_at st fd.fd_index (integer_field v)) (col + 1) cs
unfolding fill
fill_integer st col fd v cs c t h =
    let (x, s, e) = print_int-cons v in
    let read = row_integer st col fd v c t h in rw e (rw (fill, ← e, read) refl)

fill_string :
    (st : Step) (col : ℕ) (fd : FieldDefinition) (s : Bytes) (cs : List Bytes)
    → IsColumn col fd
    → fd.fd_type ≡ string
    → s ≢ []
    → fill names st col (s ∷ cs)
      ≡ fill names (set_field_at st fd.fd_index (string_field s)) (col + 1) cs
unfolding fill
fill_string st col fd [] cs c t h = absurd (h refl)
fill_string st col fd (x ∷ s) cs c t h = rw (fill, row_string st col fd (x ∷ s) c t) refl

fill_optional :
    (st : Step) (col : ℕ) (fd : FieldDefinition) (s : Bytes) (cs : List Bytes)
    → IsColumn col fd
    → fd.fd_type ≡ string
    → set_field_at st fd.fd_index (string_field []) ≡ st
    → fill names st col (s ∷ cs)
      ≡ fill names (set_field_at st fd.fd_index (string_field s)) (col + 1) cs
unfolding fill
fill_optional st col fd [] cs c t h = rw (fill, h) refl
fill_optional st col fd (x ∷ s) cs c t h = fill_string st col fd (x ∷ s) cs c t cc

-- Column `col` is the field at `col` of the table.
abbrev column : ℕ → FieldDefinition
column col =
    get_or fields col (record {
      fd_name = [];
      fd_type = unknown;
      fd_index = 0;
      fd_optional = true;
      fd_default = [];
    })

is_column :
    {col : ℕ} {fd : FieldDefinition}
    → get_elem? names col ≡ some fd.fd_name
    → find_definition fields fd.fd_name ≡ some fd
    → IsColumn col fd
is_column c k = record { column = c; known = k }

pub fill-cells : (r : Row) → IsRow r → fill names initial_step 0 (cells r) ≡ done (to_step r)
unfolding find_definition str_eq fill
fill-cells r h =
    fill_integer _ 0 (column 0) r.id _ (is_column refl refl) refl h.id_fits
    ∙ fill_string _ 1 (column 1) r.name _ (is_column refl refl) refl h.name_ne_nil
    ∙ fill_integer _ 2 (column 2) r.exit _ (is_column refl refl) refl h.exit_fits
    ∙ fill_integer _ 3 (column 3) r.duration _ (is_column refl refl) refl h.duration_fits
    ∙ fill_integer _ 4 (column 4) r.delta _ (is_column refl refl) refl h.delta_fits
    ∙ fill_optional _ 5 (column 5) r.log _ (is_column refl refl) refl refl
    ∙ fill_string _ 6 (column 6) r.user _ (is_column refl refl) refl h.user_ne_nil
    ∙ fill_integer _ 7 (column 7) r.time _ (is_column refl refl) refl h.time_fits
    ∙ fill_integer _ 8 (column 8) r.skip _ (is_column refl refl) refl h.skip_fits
    ∙ refl

pub validate-to_step : (r : Row) → step_validate (to_step r) ≡ false
unfolding step_validate missing_fields step_field_is_empty
validate-to_step r = refl

pub cells-LastNonEmpty : (r : Row) → LastNonEmpty (cells r)
cells-LastNonEmpty r = let (c, s, e) = print_int-cons r.skip in rw e cc
