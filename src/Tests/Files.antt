-- ===== src/Tests/Files.antt =====
-- The theorems on step files at concrete inputs.
use mathlib.Core.List.{Permᴰ}
use mathlib.Core.List.Permᴰ
use robsd.Base.{
  ◌++◌, eqb_ℤ, ◌<◌, Bool, true, false, List, [], ◌∷◌, none, some, ◌≡◌, ◌≢◌, ◌↔◌, refl, arith, Bytes,
  codes, ℤ, pos, negsuc, ltb_ℤ, done, out_of_fuel, All, length, str_eq, strchr, if◌then◌else◌,
}
use robsd.Lexer.{Lexer, lexer_alloc}
use robsd.Mode.{plain_robsd, robsd_regress, canvas}
use robsd.Strtonum.{strtonum}
use robsd.Step.{
  get_integer, get_str, Step, StepFile, step_cmp, has_id, has_name, find_index, steps_find_by_id,
  steps_find_by_name, find_definition, step_set_field, step_set_keyval,
}
use robsd.Step.Complete.{IsComplete}
use robsd.Step.Fields.{initial_step}
use robsd.Step.Find.{IsFirstOf, HasId, HasName, steps_find_lem}
use robsd.Step.Lex.{step_lexer_read}
use robsd.Step.Lex.Lines.{lines_tokens}
use robsd.Step.Lex.File.{alloc_lines}
use robsd.Step.Parse.{steps_parse}
use robsd.Step.Parse.Ends.{parse-ne-out_of_fuel}
use robsd.Step.Parse.Valid.{parse-AllComplete}
use robsd.Step.Stored.{Row, IsRow, IsPlain, to_step, lines}
use robsd.Step.Write.{steps_write}
use robsd.Step.RoundTrip.{IsStored, steps_parse-steps_write}
use robsd.Step.RoundTrip.Cells.{names}
use robsd.Report.{has_failed, report_status}
use robsd.Report.Status.{IsSkipped, report_status-last, report_status_iff}
use robsd.RobsdStep.{select, update_step, set_keyvals}
use robsd.RobsdStep.Select.{select_lt, select_by_number}
use robsd.RobsdStep.Update.{Changes, update-Changes}

-- A sort of steps by insertion.
abbrev insert : (Step → Step → ℤ) → Step → List Step → List Step
insert cmp st [] = st ∷ []
insert cmp st (u ∷ sts) = if ltb_ℤ (cmp u st) (pos 0) then u ∷ insert cmp st sts else st ∷ u ∷ sts

abbrev sort : (Step → Step → ℤ) → List Step → List Step
sort cmp [] = []
sort cmp (st ∷ sts) = insert cmp st (sort cmp sts)

insert-Permᴰ :
    (cmp : Step → Step → ℤ) (st : Step) (sts : List Step) → Permᴰ (st ∷ sts) (insert cmp st sts)
insert-Permᴰ cmp st [] = Permᴰ.refl (st ∷ [])
insert-Permᴰ cmp st (u ∷ sts) = insert_case (ltb_ℤ (cmp u st) (pos 0)) (insert-Permᴰ cmp st sts)
  where
    insert_case :
        (b : Bool)
        → Permᴰ (st ∷ sts) (insert cmp st sts)
        → Permᴰ (st ∷ u ∷ sts) (if b then u ∷ insert cmp st sts else st ∷ u ∷ sts)
    insert_case true p = Permᴰ.trans (Permᴰ.swap refl refl) (Permᴰ.cons refl p)
    insert_case false p = Permᴰ.refl (st ∷ u ∷ sts)

sort-Permᴰ : (cmp : Step → Step → ℤ) (sts : List Step) → Permᴰ sts (sort cmp sts)
sort-Permᴰ cmp [] = Permᴰ.nil
sort-Permᴰ cmp (st ∷ sts) =
    Permᴰ.trans (Permᴰ.cons refl (sort-Permᴰ cmp sts)) (insert-Permᴰ cmp st (sort cmp sts))

abbrev end_row : Row
end_row = record {
  id = pos 2;
  name = codes "end";
  exit = pos 0;
  duration = pos 75;
  delta = negsuc 4;
  log = [];
  user = codes "root";
  time = pos 1700000000;
  skip = pos 0;
}

abbrev env_row : Row
env_row = record {
  id = pos 1;
  name = codes "env";
  exit = pos 1;
  duration = pos 75;
  delta = pos 0;
  log = codes "01-env.log";
  user = codes "root";
  time = pos 1699999999;
  skip = pos 0;
}

end-IsRow : IsRow end_row
end-IsRow = record {
  id_fits = (omega arith, omega arith);
  name_plain = ground arith;
  name_ne_nil = cc;
  exit_fits = (omega arith, omega arith);
  duration_fits = (omega arith, omega arith);
  delta_fits = (omega arith, omega arith);
  log_plain = tt;
  user_plain = ground arith;
  user_ne_nil = cc;
  time_fits = (omega arith, omega arith);
  skip_fits = (omega arith, omega arith);
}

env-IsRow : IsRow env_row
env-IsRow = record {
  id_fits = (omega arith, omega arith);
  name_plain = ground arith;
  name_ne_nil = cc;
  exit_fits = (omega arith, omega arith);
  duration_fits = (omega arith, omega arith);
  delta_fits = (omega arith, omega arith);
  log_plain = ground arith;
  user_plain = ground arith;
  user_ne_nil = cc;
  time_fits = (omega arith, omega arith);
  skip_fits = (omega arith, omega arith);
}

abbrev two_steps : List Step
two_steps = to_step end_row ∷ to_step env_row ∷ []

abbrev two_steps_file : StepFile
two_steps_file = record { columns = names; steps = two_steps }

two_steps-IsStored : All IsStored two_steps
two_steps-IsStored = ((end_row, refl, end-IsRow), ((env_row, refl, env-IsRow), tt))

steps_parse-steps_write_example :
    (out : Bytes) × ((steps_write sort two_steps_file).0 ≡ done out)
    × (steps_parse (some out)
        ≡ done (record { columns = names; steps = (steps_write sort two_steps_file).1.steps }))
steps_parse-steps_write_example =
    steps_parse-steps_write sort two_steps_file (sort-Permᴰ step_cmp two_steps) two_steps-IsStored

parse-ne-out_of_fuel_example : steps_parse (some (codes "step,name\n1,,")) ≢ out_of_fuel
parse-ne-out_of_fuel_example = parse-ne-out_of_fuel (some (codes "step,name\n1,,"))

abbrev two_lines : List (List Bytes)
two_lines = (codes "a" ∷ [] ∷ codes "bc" ∷ []) ∷ (codes "d" ∷ []) ∷ []

two_lines-IsPlain : All (All IsPlain) two_lines
two_lines-IsPlain = ground arith

alloc_lines_example :
    (lx : Lexer) × (lexer_alloc step_lexer_read (some (lines two_lines)) ≡ done lx)
    × (lx.lx_ahead ≡ lines_tokens 1 two_lines)
    × (lx.lx_seen ≡ [])
alloc_lines_example = alloc_lines two_lines two_lines-IsPlain

steps_find_lem_example :
    IsFirstOf (HasId (pos 1)) two_steps (steps_find_by_id two_steps (pos 1))
    × IsFirstOf (HasName (codes "env")) two_steps (steps_find_by_name two_steps (codes "env"))
steps_find_lem_example = steps_find_lem two_steps (pos 1) (codes "env")

select_lt_example : 1 < length two_steps
unfolding select find_index has_name str_eq steps_find_by_name
select_lt_example = select_lt two_steps (some (codes "env")) (pos 0) 1 refl

select_by_number_example :
    (select two_steps none (pos 2) ≡ some 1) × (select two_steps none (negsuc 0) ≡ some 1)
select_by_number_example = select_by_number two_steps 1 (omega arith)

abbrev updated_file : StepFile
updated_file = record {
  columns = names;
  steps = to_step end_row ∷ to_step (record env_row { exit = pos 0 }) ∷ [];
}

env_updated : update_step two_steps_file (pos 1) (codes "exit=0" ∷ []) ≡ some updated_file
unfolding update_step find_index has_id set_keyvals step_set_keyval step_set_field find_definition
    str_eq strchr strtonum steps_find_by_id
env_updated = refl

update-Changes_example : Changes (steps_find_by_id two_steps (pos 1)) two_steps_file updated_file
update-Changes_example =
    update-Changes two_steps_file updated_file (pos 1) (codes "exit=0" ∷ []) env_updated

abbrev named_step : Step
named_step = (step_set_field initial_step (codes "name") (codes "env")).1

report_status_iff_example :
    ((report_status two_steps_file robsd_regress ≡ codes "ok")
      ↔ All (λ st. has_failed st ≡ false) two_steps)
    × (report_status two_steps_file canvas ≡ report_status two_steps_file robsd_regress)
report_status_iff_example = report_status_iff two_steps_file

abbrev skipped_end : Step
skipped_end = to_step (record end_row { skip = pos 1 })

end-IsSkipped : All IsSkipped (skipped_end ∷ [])
unfolding get_integer find_definition str_eq
end-IsSkipped = (refl, tt)

env_not_skipped : eqb_ℤ (get_integer (to_step env_row) (codes "skip")) (pos 1) ≡ false
unfolding get_integer find_definition str_eq
env_not_skipped = refl

report_status-last_example :
    report_status
      (record { columns = names; steps = to_step env_row ∷ skipped_end ∷ [] })
      plain_robsd
    ≡ (if has_failed (to_step env_row)
        then codes "failed in " ++ get_str (to_step env_row) (codes "name")
        else codes "ok")
report_status-last_example =
    report_status-last plain_robsd names [] (to_step env_row) (skipped_end ∷ []) (cc) (cc)
      end-IsSkipped env_not_skipped

-- The file as it is read back.
abbrev one_row_file : StepFile
one_row_file = record { columns = names; steps = (steps_write sort two_steps_file).1.steps }

parse-AllComplete_example : All IsComplete one_row_file.steps
parse-AllComplete_example =
    parse-AllComplete (some steps_parse-steps_write_example.0) one_row_file
      steps_parse-steps_write_example.2
