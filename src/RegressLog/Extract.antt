-- ===== src/RegressLog/Extract.antt =====
-- The tests that `regress_log_parse` extracts from a log.
use robsd.Base.{
  ℕ, ◌≤◌, suc, ◌+◌, Bool, true, false, ◌||◌, ◌&&◌, List, [], ◌∷◌, ◌++◌, Option, none, some,
  if◌then◌else◌, ◌==◌, not, Bytes, length, map, ◌≡◌, ◌∙◌, refl, sym, ap, arith, append-nil,
  append_assoc, Bool-cases, inl, inr,
}
use robsd.RegressLog.{
  LogFlags, ismarker, isxtrace, is_wanted, add_line, add_test, parse_loop, regress_log_parse,
  regress_log_peek,
}

-- The lines behind the shell trace at the start of the log.
unfoldable pub skip_trace : List Bytes → List Bytes
skip_trace [] = []
skip_trace (l ∷ ls) = elim (isxtrace l) [ true ↦ skip_trace ls | false ↦ l ∷ ls ]

-- The lines, cut behind each wanted line; what follows the last is left out.
unfoldable pub chunks : LogFlags → List Bytes → List Bytes → List (List Bytes)
chunks flags p [] = []
chunks flags p (l ∷ ls) = elim (is_wanted flags l) [
  | true ↦ (p ++ l ∷ []) ∷ chunks flags [] ls
  | false ↦ chunks flags (p ++ l ∷ []) ls
]

any_marker : List Bytes → Bool
any_marker [] = false
any_marker (l ∷ ls) = ismarker l || any_marker ls

-- The lines from the last marker on, or all if there is none.
unfoldable pub since_marker : List Bytes → List Bytes
unfolding any_marker
since_marker [] = []
since_marker (l ∷ ls) = elim (any_marker ls) [ true ↦ since_marker ls | false ↦ l ∷ ls ]

unfoldable pub unlines : List Bytes → Bytes
unlines [] = []
unlines (l ∷ ls) = l ++ b'\n' ∷ unlines ls

-- The tests with a newline before each, or between them.
unfoldable pub joined : Bool → List Bytes → Bytes
joined first [] = []
joined true (t ∷ ts) = b'\n' ∷ t ++ joined true ts
joined false (t ∷ ts) = t ++ joined true ts

unfoldable pub tests : LogFlags → List Bytes → List Bytes
tests flags ls = map (λ c. unlines (since_marker c)) (chunks flags [] (skip_trace ls))

any_marker-append :
    (p : List Bytes) (l : Bytes) → any_marker (p ++ l ∷ []) ≡ (any_marker p || ismarker l)
unfolding any_marker
any_marker-append [] l = ground arith
any_marker-append (x ∷ p) l = ground (arith, any_marker-append p l)

since_marker-append :
    (p : List Bytes) (l : Bytes)
    → since_marker (p ++ l ∷ []) ≡ (if ismarker l then [] else since_marker p) ++ l ∷ []
unfolding since_marker any_marker
since_marker-append [] l = ground arith
since_marker-append (x ∷ p) l = ground (arith, any_marker-append p l, since_marker-append p l)

unlines-append : (p q : List Bytes) → unlines (p ++ q) ≡ unlines p ++ unlines q
unfolding unlines
unlines-append [] q = refl
unlines-append (l ∷ p) q = rw (append_assoc, unlines-append p q)

scratch_lem :
    (p : List Bytes) (l : Bytes)
    → add_line (unlines (since_marker p)) l ≡ unlines (since_marker (p ++ l ∷ []))
unfolding add_line unlines
scratch_lem p l = elim (Bool-cases (ismarker l)) [
  | inl e ↦ rw (since_marker-append p l, e) refl
  | inr e ↦
      rw (since_marker-append p l, e)
        (rw append_assoc (sym (unlines-append (since_marker p) (l ∷ []))))
]

skip_lem :
    (flags : LogFlags) (ls : List Bytes) (scratch out : Bytes) (n : ℕ)
    → parse_loop flags ls true scratch out n ≡ parse_loop flags (skip_trace ls) false scratch out n
unfolding parse_loop skip_trace
skip_lem flags [] scratch out n = refl
skip_lem flags (l ∷ ls) scratch out n = ground (arith, skip_lem flags ls scratch out n)

abbrev has_before : LogFlags → ℕ → Bool
has_before flags n = not (n == 0) || flags.log_newline

add_test_lem :
    (flags : LogFlags) (n : ℕ) (out t : Bytes) (ts : List Bytes)
    → add_test flags n out t ++ joined true ts ≡ out ++ joined (has_before flags n) (t ∷ ts)
unfolding add_test joined
add_test_lem flags n out t ts =
    let first = n == 0 && not flags.log_newline in
    let q : has_before flags n ≡ not first = ground arith in
    elim (Bool-cases first) [
      | inl e ↦ rw (add_test, q, e) (append_assoc (out ++ []) t _ ∙ append_assoc out [] _)
      | inr e ↦
          rw (add_test, q, e)
            (append_assoc (out ++ b'\n' ∷ []) t _ ∙ append_assoc out (b'\n' ∷ []) _)
    ]

abbrev texts : List (List Bytes) → List Bytes
texts cs = map (λ c. unlines (since_marker c)) cs

pair_eq : {A B : Type 0} {a a' : A} {b b' : B} → a ≡ a' → b ≡ b' → ◌≡◌ {A = A × B} (a, b) (a', b')
pair_eq e f = rw (e, f) refl

joined_nil : (first : Bool) → joined first [] ≡ []
unfolding joined
joined_nil true = refl
joined_nil false = refl

has_before-suc : (flags : LogFlags) (n : ℕ) → has_before flags (suc n) ≡ true
has_before-suc flags n = ground arith

loop_lem :
    (flags : LogFlags) (p ls : List Bytes) (out : Bytes) (n : ℕ)
    → flags.log_peek ≡ false
    → parse_loop flags ls false (unlines (since_marker p)) out n ≡ (
      n + length (texts (chunks flags p ls)),
      out ++ joined (has_before flags n) (texts (chunks flags p ls)),
    )
unfolding parse_loop chunks since_marker unlines joined
loop_lem flags p [] out n h =
    pair_eq (omega arith) (rw (joined_nil (has_before flags n)) (sym (append-nil out)))
loop_lem flags p (l ∷ ls) out n h = elim (Bool-cases (is_wanted flags l)) [
  | inr e ↦
      rw (parse_loop, chunks, e) (rw (scratch_lem p l) (loop_lem flags (p ++ l ∷ []) ls out n h))
  | inl e ↦
      let cs = texts (chunks flags [] ls) in
      let t = unlines (since_marker (p ++ l ∷ [])) in
      rw (parse_loop, chunks, e)
        (rw h (
          rw (scratch_lem p l) (
            loop_lem flags [] ls (add_test flags n out t) (suc n) h
            ∙ pair_eq (omega arith) (rw (has_before-suc flags n) (add_test_lem flags n out t cs)))))
]

-- Without PEEK, `regress_log_parse` counts the tests of the log and puts them behind `out`: the
-- trace at the start is skipped, a test ends in a line that has one of the wanted outcomes and begins
-- behind the one before it, or at the last marker in between, and a newline stands between
-- two tests, and with NEWLINE also before the first.
pub regress_log_parse_lem :
    (lines : Bytes → List Bytes) (flags : LogFlags) (file out : Bytes)
    → flags.log_peek ≡ false
    → regress_log_parse lines flags (some file) out
      ≡ some (
        length (tests flags (lines file)),
        out ++ joined flags.log_newline (tests flags (lines file)),
      )
unfolding regress_log_parse tests since_marker unlines
regress_log_parse_lem lines flags file out h = ap some (
    skip_lem flags (lines file) [] out 0
    ∙ loop_lem flags [] (skip_trace (lines file)) out 0 h
    ∙ pair_eq (omega arith) refl)

loop_le :
    (flags : LogFlags) (ls : List Bytes) (xtrace : Bool) (scratch out : Bytes) (n : ℕ)
    → n ≤ (parse_loop flags ls xtrace scratch out n).0
unfolding parse_loop
loop_le flags [] xtrace scratch out n = omega arith
loop_le flags (l ∷ ls) xtrace scratch out n =
    let scratch' = add_line scratch l in
    let out' = add_test flags n out scratch' in
    elim (Bool-cases (xtrace && isxtrace l)) [
      | inl e ↦ rw (parse_loop, e) (loop_le flags ls xtrace scratch out n)
      | inr e ↦ elim (Bool-cases (is_wanted flags l)) [
        | inr f ↦ rw (parse_loop, e, f) (loop_le flags ls false scratch' out n)
        | inl f ↦ elim (Bool-cases flags.log_peek) [
          | inl g ↦ rw (parse_loop, e, f, g) (omega arith)
          | inr g ↦ rw (parse_loop, e, f, g) (omega (arith, loop_le flags ls false [] out' (suc n)))
        ]
      ]
    ]

sign_lem : (n : ℕ) → 1 ≤ n → ◌≡◌ {A = ℕ} 1 (if n == 0 then 0 else 1)
sign_lem n h = ground arith

with_peek : Bool → LogFlags → LogFlags
with_peek b flags = record flags { log_peek = b }

wanted_peek :
    (b : Bool) (flags : LogFlags) (l : Bytes) → is_wanted (with_peek b flags) l ≡ is_wanted flags l
unfolding is_wanted with_peek
wanted_peek b flags l = refl

peek_loop :
    (flags : LogFlags) (ls : List Bytes) (xtrace : Bool) (scratch out : Bytes)
    → (parse_loop (with_peek true flags) ls xtrace scratch [] 0).0
      ≡ (if (parse_loop (with_peek false flags) ls xtrace scratch out 0).0 == 0 then 0 else 1)
unfolding parse_loop with_peek
peek_loop flags [] xtrace scratch out = ground arith
peek_loop flags (l ∷ ls) xtrace scratch out =
    let scratch' = add_line scratch l in
    elim (Bool-cases (xtrace && isxtrace l)) [
      | inl e ↦ rw (parse_loop, e) (peek_loop flags ls xtrace scratch out)
      | inr e ↦ elim (Bool-cases (is_wanted flags l)) [
        | inr f ↦
            rw (parse_loop, e, wanted_peek true flags l, wanted_peek false flags l, f)
              (peek_loop flags ls false scratch' out)
        | inl f ↦
            rw (parse_loop, e, wanted_peek true flags l, wanted_peek false flags l, f)
              (sign_lem _ (
                loop_le (with_peek false flags) ls false []
                  (add_test (with_peek false flags) 0 out scratch') 1))
      ]
    ]

abbrev pub sign : Option (ℕ × Bytes) → Option ℕ
sign none = none
sign (some r) = some (if r.0 == 0 then 0 else 1)

-- `regress_log_peek` returns -1 where `regress_log_parse` does, 0 where it finds no test, and 1
-- where it finds one or more.
pub peek-parse :
    (lines : Bytes → List Bytes) (flags : LogFlags) (file : Option Bytes) (out : Bytes)
    → regress_log_peek lines flags file
      ≡ sign (regress_log_parse lines (record flags { log_peek = false }) file out)
unfolding regress_log_peek regress_log_parse with_peek
peek-parse lines flags none out = refl
peek-parse lines flags (some file) out = ap some (peek_loop flags (lines file) true [] out)
