-- ===== src/RegressLog/Trim.antt =====
-- What `regress_log_trim` leaves of a log.
use robsd.Base.{
  ◌⊎◌, ℕ, zero, suc, ◌<◌, Bool, true, false, ◌&&◌, List, [], ◌∷◌, ◌++◌, some, if◌then◌else◌, ◌==◌,
  Bytes, length, length-append, take, ◌≡◌, ◌∙◌, refl, sym, ap, arith, append-nil, append_assoc,
  Bool-cases, inl, inr,
}
use robsd.RegressLog.{isxtrace, trim_loop, regress_log_trim}
use robsd.RegressLog.Extract.{skip_trace, unlines}

all_trace : List Bytes → Bool
all_trace [] = true
all_trace (l ∷ ls) = isxtrace l && all_trace ls

-- The lines without the shell trace at their end.
unfoldable pub trim_end : List Bytes → List Bytes
unfolding all_trace
trim_end [] = []
trim_end (l ∷ ls) = elim (all_trace (l ∷ ls)) [ true ↦ [] | false ↦ l ∷ trim_end ls ]

take-append : (p q : Bytes) → take (length p) (p ++ q) ≡ p
take-append [] q = refl
take-append (x ∷ p) q = ap (λ t. x ∷ t) (take-append p q)

all_trace-trim_end : (ls : List Bytes) → all_trace ls ≡ true → trim_end ls ≡ []
unfolding trim_end all_trace
all_trace-trim_end [] h = refl
all_trace-trim_end (l ∷ ls) h = rw (trim_end, h) refl

end_lem :
    (xend : ℕ) (bf : Bytes)
    → trim_loop [] false xend bf ≡ take (if xend == 0 then length bf else xend) bf
unfolding trim_loop
end_lem xend bf = refl

-- A round of the loop on a line of the trace, and on another.
trace_round :
    (l : Bytes) (ls : List Bytes) (xend : ℕ) (bf : Bytes)
    → isxtrace l ≡ true
    → trim_loop (l ∷ ls) false xend bf
      ≡ trim_loop ls false (if xend == 0 then length bf else xend) (bf ++ l ++ b'\n' ∷ [])
unfolding trim_loop
trace_round l ls xend bf h = rw (trim_loop, h) refl

text_round :
    (l : Bytes) (ls : List Bytes) (xend : ℕ) (bf : Bytes)
    → isxtrace l ≡ false
    → trim_loop (l ∷ ls) false xend bf ≡ trim_loop ls false 0 (bf ++ l ++ b'\n' ∷ [])
unfolding trim_loop
text_round l ls xend bf h = rw (trim_loop, h) refl

one_line : (bf l t : Bytes) → (bf ++ l ++ b'\n' ∷ []) ++ t ≡ bf ++ (l ++ b'\n' ∷ t)
one_line bf l t = append_assoc (bf ++ l) (b'\n' ∷ []) t ∙ append_assoc bf l (b'\n' ∷ t)

nonzero : {A : Type 0} (n : ℕ) (a b : A) → 0 < n → (if n == 0 then a else b) ≡ b
nonzero zero a b h = absurd (omega arith)
nonzero (suc n) a b h = let e : (suc n == 0) ≡ false = ground arith in rw e refl

-- Behind a text, and behind a text with a trace at its end.
abbrev Trims : List Bytes → Type 0
Trims ls =
    ((bf : Bytes) → 0 < length bf → trim_loop ls false 0 bf ≡ bf ++ unlines (trim_end ls))
    × ((p q : Bytes)
        → 0 < length p
        → trim_loop ls false (length p) (p ++ q)
          ≡ (if all_trace ls then p else p ++ q ++ unlines (trim_end ls)))

some_line : (bf l : Bytes) → 0 < length (bf ++ l ++ b'\n' ∷ [])
some_line bf l = omega (arith, length-append {0} (bf ++ l) (b'\n' ∷ []))

nothing_left : trim_loop [] false 0 [] ≡ unlines (trim_end [])
unfolding trim_loop trim_end unlines
nothing_left = refl

take_all : (bf : Bytes) → take (length bf) bf ≡ bf
take_all [] = refl
take_all (x ∷ bf) = ap (λ t. x ∷ t) (take_all bf)

abbrev kept : List Bytes → Bytes
kept ls = unlines (trim_end ls)

kept_line :
    (l : Bytes) (ls : List Bytes)
    → all_trace (l ∷ ls) ≡ false
    → kept (l ∷ ls) ≡ l ++ b'\n' ∷ kept ls
unfolding trim_end unlines
kept_line l ls h = rw (trim_end, h) refl

kept_none : (l : Bytes) (ls : List Bytes) → all_trace (l ∷ ls) ≡ true → kept (l ∷ ls) ≡ []
unfolding trim_end unlines
kept_none l ls h = rw (trim_end, h) refl

all_trace_first :
    (l : Bytes) (ls : List Bytes) → isxtrace l ≡ true → all_trace (l ∷ ls) ≡ all_trace ls
unfolding all_trace
all_trace_first l ls h = rw h refl

no_trace_first : (l : Bytes) (ls : List Bytes) → isxtrace l ≡ false → all_trace (l ∷ ls) ≡ false
unfolding all_trace
no_trace_first l ls h = rw h refl

behind_trace :
    (l : Bytes) (ls : List Bytes) (p q : Bytes)
    → isxtrace l ≡ true
    → (if all_trace ls then p else p ++ (q ++ l ++ b'\n' ∷ []) ++ kept ls)
      ≡ (if all_trace (l ∷ ls) then p else p ++ q ++ kept (l ∷ ls))
behind_trace l ls p q h = elim (Bool-cases (all_trace ls)) [
  | inl e ↦ let f = all_trace_first l ls h ∙ e in rw (f, e) refl
  | inr e ↦
      let f = all_trace_first l ls h ∙ e in
      rw (f, e, kept_line l ls f)
        (ap (λ t. t ++ kept ls)
            (sym (append_assoc p (q ++ l) (b'\n' ∷ []))
              ∙ ap (λ t. t ++ b'\n' ∷ []) (sym (append_assoc p q l)))
          ∙ one_line (p ++ q) l (kept ls))
]

line_kept :
    (l : Bytes) (ls : List Bytes) (bf : Bytes)
    → isxtrace l ≡ false
    → (bf ++ l ++ b'\n' ∷ []) ++ kept ls ≡ bf ++ kept (l ∷ ls)
line_kept l ls bf h = rw (kept_line l ls (no_trace_first l ls h)) (one_line bf l (kept ls))

if_same : (b : Bool) (p t : Bytes) → (b ≡ true → t ≡ p) → (if b then p else t) ≡ t
if_same true p t h = sym (h refl)
if_same false p t h = refl

trace_only : (ls : List Bytes) (bf : Bytes) → all_trace ls ≡ true → bf ++ [] ++ kept ls ≡ bf
unfolding unlines
trace_only ls bf h = rw (all_trace-trim_end ls h) (append-nil (bf ++ []) ∙ append-nil bf)

more_trace :
    (l : Bytes) (ls : List Bytes) (p q : Bytes)
    → isxtrace l ≡ true
    → 0 < length p
    → trim_loop (l ∷ ls) false (length p) (p ++ q)
      ≡ trim_loop ls false (length p) (p ++ (q ++ l ++ b'\n' ∷ []))
more_trace l ls p q e h =
    let nl = b'\n' ∷ [] in
    trace_round l ls (length p) (p ++ q) e
    ∙ ap (λ n. trim_loop ls false n (p ++ q ++ l ++ b'\n' ∷ []))
        (nonzero (length p) (length (p ++ q)) (length p) h)
    ∙ ap (trim_loop ls false (length p)) (
        append_assoc (p ++ q) l nl
        ∙ append_assoc p q (l ++ nl)
        ∙ ap (λ t. p ++ t) (sym (append_assoc q l nl)))

nil-Trims : Trims []
unfolding all_trace trim_end unlines
nil-Trims = (
  λ bf h. end_lem 0 bf ∙ take_all bf ∙ sym (append-nil bf),
  λ p q h.
      end_lem (length p) (p ++ q)
      ∙ rw (nonzero (length p) (length (p ++ q)) (length p) h) (take-append p q),
)

abbrev TrimsText : List Bytes → Type 0
TrimsText ls = (bf : Bytes) → 0 < length bf → trim_loop ls false 0 bf ≡ bf ++ kept ls

abbrev TrimsTrace : List Bytes → Type 0
TrimsTrace ls =
    (p q : Bytes)
    → 0 < length p
    → trim_loop ls false (length p) (p ++ q) ≡ (if all_trace ls then p else p ++ q ++ kept ls)

trace-TrimsText :
    (l : Bytes) (ls : List Bytes) → isxtrace l ≡ true → TrimsTrace ls → TrimsText (l ∷ ls)
trace-TrimsText l ls e r bf h =
    let nl = b'\n' ∷ [] in
    trace_round l ls 0 bf e
    ∙ ap (trim_loop ls false (length bf)) (append_assoc bf l nl)
    ∙ r bf (l ++ nl) h
    ∙ behind_trace l ls bf [] e
    ∙ if_same (all_trace (l ∷ ls)) bf (bf ++ [] ++ kept (l ∷ ls)) (trace_only (l ∷ ls) bf)
    ∙ ap (λ t. t ++ kept (l ∷ ls)) (append-nil bf)

trace-TrimsTrace :
    (l : Bytes) (ls : List Bytes) → isxtrace l ≡ true → TrimsTrace ls → TrimsTrace (l ∷ ls)
trace-TrimsTrace l ls e r p q h =
    more_trace l ls p q e h ∙ r p (q ++ l ++ b'\n' ∷ []) h ∙ behind_trace l ls p q e

text-TrimsText :
    (l : Bytes) (ls : List Bytes) → isxtrace l ≡ false → TrimsText ls → TrimsText (l ∷ ls)
text-TrimsText l ls e r bf h =
    text_round l ls 0 bf e ∙ r (bf ++ l ++ b'\n' ∷ []) (some_line bf l) ∙ line_kept l ls bf e

text-TrimsTrace :
    (l : Bytes) (ls : List Bytes) → isxtrace l ≡ false → TrimsText ls → TrimsTrace (l ∷ ls)
text-TrimsTrace l ls e r p q h = rw (no_trace_first l ls e) (
    text_round l ls (length p) (p ++ q) e
    ∙ r (p ++ q ++ l ++ b'\n' ∷ []) (some_line (p ++ q) l)
    ∙ line_kept l ls (p ++ q) e)

loop-Trims : (ls : List Bytes) → TrimsText ls × TrimsTrace ls
loop-Trims [] = nil-Trims
loop-Trims (l ∷ ls) =
    let r = loop-Trims ls in
    elim (Bool-cases (isxtrace l)) [
      | inl e ↦ (trace-TrimsText l ls e r.1, trace-TrimsTrace l ls e r.1)
      | inr e ↦ (text-TrimsText l ls e r.0, text-TrimsTrace l ls e r.0)
    ]

trim_skip :
    (ls : List Bytes) (xend : ℕ) (bf : Bytes)
    → trim_loop ls true xend bf ≡ trim_loop (skip_trace ls) false xend bf
unfolding trim_loop skip_trace
trim_skip [] xend bf = refl
trim_skip (l ∷ ls) xend bf = elim (Bool-cases (isxtrace l)) [
  | inl e ↦ rw (trim_loop, skip_trace, e) (trim_skip ls xend bf)
  | inr e ↦ rw (trim_loop, skip_trace, e) refl
]

skip_cases :
    (ls : List Bytes)
    → (skip_trace ls ≡ [])
      ⊎ ((l : Bytes) × (ls' : List Bytes) × (skip_trace ls ≡ l ∷ ls') × (isxtrace l ≡ false))
unfolding skip_trace
skip_cases [] = inl refl
skip_cases (l ∷ ls) = elim (Bool-cases (isxtrace l)) [
  | inl e ↦ rw (skip_trace, e) (skip_cases ls)
  | inr e ↦ rw (skip_trace, e) (inr (l, ls, refl, e))
]

-- `regress_log_trim` prints the lines of the log without the shell traces at its start and at its
-- end; those in between stay.
pub regress_log_trim_lem :
    (lines : Bytes → List Bytes) (file : Bytes)
    → regress_log_trim lines (some file) ≡ some (unlines (trim_end (skip_trace (lines file))))
unfolding regress_log_trim
regress_log_trim_lem lines file = ap some (
    trim_skip (lines file) 0 [] ∙ elim (skip_cases (lines file)) [
      | inl e ↦ rw e nothing_left
      | inr (l, ls, e, f) ↦ rw e (
          text_round l ls 0 [] f
          ∙ (loop-Trims ls).0 (l ++ b'\n' ∷ []) (some_line [] l)
          ∙ line_kept l ls [] f)
    ])
