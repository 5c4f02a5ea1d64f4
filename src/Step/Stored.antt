-- ===== src/Step/Stored.antt =====
-- Steps that a file can hold, as rows of values, and what is written for them.
use robsd.Base.{
  ap, Bool, true, false, List, [], ◌∷◌, ◌++◌, Option, none, some, ◌≡◌, ◌≢◌, ◌∙◌, sym, refl, arith,
  All, Lacks, append-nil, append_assoc, map, Option-cases, Bytes, ℤ, ◌≤ℤ◌, done, inl, inr,
}
use robsd.Interpolate.{interpolate_buffer, max_depth}
use robsd.Interpolate.Template.{
  Chunk, text, variable, print, IsTemplate, expand_with, expand, print_value, IsValue,
  interpolate-print,
}
use robsd.Strtonum.{print_int, llong_min, llong_max}
use robsd.Strtonum.Print.{print_int-All}
use robsd.Step.{
  Step, FieldDefinition, fields, field_at, field_definition_find_by_name, find_definition,
}
use robsd.Step.Complete.{find_definition-All}
use robsd.Step.Fields.{string_field, integer_field}
use robsd.Step.Write.{
  step_interpolate_lookup, field_text, step_template, step_serialize, serialize_all,
}

-- The values of a step, in the order of the table.
pub record Row : Type 0 where
  pub id : ℤ
  pub name : Bytes
  pub exit : ℤ
  pub duration : ℤ
  pub delta : ℤ
  pub log : Bytes
  pub user : Bytes
  pub time : ℤ
  pub skip : ℤ

abbrev pub to_step : Row → Step
to_step r = record {
  st_fields =
      integer_field r.id
      ∷ string_field r.name
      ∷ integer_field r.exit
      ∷ integer_field r.duration
      ∷ integer_field r.delta
      ∷ string_field r.log
      ∷ string_field r.user
      ∷ integer_field r.time
      ∷ integer_field r.skip
      ∷ [];
}

-- The characters that a value of a step file cannot hold: the separators, the NUL that the lexer
-- takes for the end of the file, and the `$` that is expanded when the file is written.
abbrev pub IsPlain : Bytes → Type 0
IsPlain = All (λ c. (c ≢ b',') × (c ≢ b'\n') × (c ≢ 0) × (c ≢ b'$'))

abbrev pub IsInt64 : ℤ → Type 0
IsInt64 v = (llong_min ≤ℤ v) × (v ≤ℤ llong_max)

-- A row that can be read back: its mandatory texts are not empty.
pub record IsRow (r : Row) : Type 0 where
  pub id_fits : IsInt64 r.id
  pub name_plain : IsPlain r.name
  pub name_ne_nil : r.name ≢ []
  pub exit_fits : IsInt64 r.exit
  pub duration_fits : IsInt64 r.duration
  pub delta_fits : IsInt64 r.delta
  pub log_plain : IsPlain r.log
  pub user_plain : IsPlain r.user
  pub user_ne_nil : r.user ≢ []
  pub time_fits : IsInt64 r.time
  pub skip_fits : IsInt64 r.skip

-- The texts of the fields.
abbrev pub cells : Row → List Bytes
cells r =
    print_int r.id
    ∷ r.name
    ∷ print_int r.exit
    ∷ print_int r.duration
    ∷ print_int r.delta
    ∷ r.log
    ∷ r.user
    ∷ print_int r.time
    ∷ print_int r.skip
    ∷ []

-- The cells with commas between them, a newline, and the text `rest`.
abbrev pub line : List Bytes → Bytes → Bytes
line [] rest = b'\n' ∷ rest
line (c ∷ []) rest = c ++ b'\n' ∷ rest
line (c ∷ cs) rest = c ++ b',' ∷ line cs rest

step_chunks : Bool → List FieldDefinition → List Chunk
step_chunks first [] = text (b'\n' ∷ []) ∷ []
step_chunks true (fd ∷ fds) = variable fd.fd_name ∷ step_chunks false fds
step_chunks false (fd ∷ fds) = text (b',' ∷ []) ∷ variable fd.fd_name ∷ step_chunks false fds

value_of : Option Bytes → Option (List Chunk)
value_of none = none
value_of (some v) = some (text v ∷ [])

env : Step → Bytes → Option (List Chunk)
env st name = value_of (step_interpolate_lookup st name)

print-env : (o : Option Bytes) → o ≡ print_value (value_of o)
unfolding value_of print
print-env none = refl
print-env (some v) = rw append-nil

template_lem : step_template ≡ print (step_chunks true fields)
unfolding step_template print step_chunks
template_lem = refl

step_chunks-IsTemplate : IsTemplate (step_chunks true fields)
unfolding step_chunks
step_chunks-IsTemplate = ground arith

pub print_int-IsPlain : (v : ℤ) → IsPlain (print_int v)
print_int-IsPlain = print_int-All _ (λ c h. omega arith) (omega arith)

IsPlain-Lacks : (s : Bytes) → IsPlain s → Lacks b'$' s
IsPlain-Lacks [] h = tt
IsPlain-Lacks (c ∷ s) (h, hs) = (h.3, IsPlain-Lacks s hs)

abbrev HasNoDollar : Step → FieldDefinition → Type 0
HasNoDollar st fd =
    IsValue (value_of (field_text (field_at st fd.fd_index).sf_type (field_at st fd.fd_index)))

module _ (r : Row) (h : IsRow r) where
  number_text : (v : ℤ) → Lacks b'$' (print_int v) × Unit {0}
  number_text v = (IsPlain-Lacks (print_int v) (print_int-IsPlain v), tt)

  text_text : (s : Bytes) → IsPlain s → Lacks b'$' s × Unit {0}
  text_text s p = (IsPlain-Lacks s p, tt)

  row-HasNoDollar : All (HasNoDollar (to_step r)) fields
  unfolding value_of field_text
  row-HasNoDollar = (
    number_text r.id,
    (
      text_text r.name h.name_plain,
      (
        number_text r.exit,
        (
          number_text r.duration,
          (
            number_text r.delta,
            (
              text_text r.log h.log_plain,
              (text_text r.user h.user_plain, (number_text r.time, (number_text r.skip, tt))),
            ),
          ),
        ),
      ),
    ),
  )

  env-IsValue : (x : Bytes) → IsValue (env (to_step r) x)
  unfolding env value_of step_interpolate_lookup field_definition_find_by_name
  env-IsValue x = elim (Option-cases (find_definition fields x)) [
    | inl e ↦ rw (env, step_interpolate_lookup, e) tt
    | inr (fd, e) ↦
        rw (env, step_interpolate_lookup, e)
          (find_definition-All (HasNoDollar (to_step r)) fields x fd row-HasNoDollar e)
  ]

expand_row :
    (r : Row)
    → expand (env (to_step r)) false max_depth (step_chunks true fields) ≡ some (line (cells r) [])
unfolding expand expand_with step_chunks env value_of step_interpolate_lookup
    field_definition_find_by_name
expand_row r = simp append-nil

-- A row is written as a line of its cells.
pub serialize-to_step :
    (r : Row) (out : Bytes)
    → IsRow r
    → step_serialize (to_step r) out ≡ done (out ++ line (cells r) [])
unfolding step_serialize interpolate_buffer env
serialize-to_step r out h =
    let st = to_step r in
    let written =
      interpolate-print {S = Unit {0}} (λ name s. (step_interpolate_lookup st name, s)) false
        (env st) (λ x s. ap (λ o. (o, s)) (print-env (step_interpolate_lookup st x)))
        (env-IsValue r h) max_depth out (step_chunks true fields) tt step_chunks-IsTemplate in
    rw (step_serialize, template_lem) (ap (λ p. p.0) written ∙ rw (expand_row r))

line-append : (cs : List Bytes) (rest : Bytes) → line cs rest ≡ line cs [] ++ rest
line-append [] rest = refl
line-append (c ∷ []) rest = rw append_assoc
line-append (c ∷ d ∷ cs) rest = rw (append_assoc, ← line-append (d ∷ cs) rest)

abbrev pub lines : List (List Bytes) → Bytes
lines [] = []
lines (l ∷ ls) = line l (lines ls)

pub serialize_all-to_step :
    (rs : List Row) (bf : Bytes)
    → All IsRow rs
    → serialize_all (map to_step rs) bf ≡ done (bf ++ lines (map cells rs))
unfolding serialize_all
serialize_all-to_step [] bf h = rw append-nil
serialize_all-to_step (r ∷ rs) bf (h, hs) =
    let rest = lines (map cells rs) in
    let one = bf ++ line (cells r) [] in
    rw (serialize_all, serialize-to_step r bf h)
      (serialize_all-to_step rs one hs
        ∙ ap done (
            append_assoc bf (line (cells r) []) rest
            ∙ ap (λ t. bf ++ t) (sym (line-append (cells r) rest))))
