-- ===== src/Report/Trim.antt =====
-- `buffer_trim_lines` of report.c.
use robsd.Base.{
  ℕ, zero, suc, ◌-◌, [], ◌∷◌, ◌++◌, Bytes, length, get_or, replicate, ◌==◌, true, false, ◌≡◌, ◌≢◌,
  ◌∙◌, refl, sym, ap, arith, append-nil, append_assoc, Bool-cases, inl, inr,
}
use robsd.RegressLog.{buffer_pop}
use robsd.Report.{trim_lines_loop, buffer_trim_lines}

abbrev pub last_byte : Bytes → ℕ
last_byte bf = get_or bf (length bf - 1) 0

pop_last :
    (c : ℕ) (bf : Bytes)
    → (c ∷ bf ≡ buffer_pop (c ∷ bf) ++ get_or (c ∷ bf) (length bf) 0 ∷ [])
      × (length (buffer_pop (c ∷ bf)) ≡ length bf)
pop_last c [] = (refl, refl)
pop_last c (d ∷ bf) = let (e, l) = pop_last d bf in (ap (λ t. c ∷ t) e, ap suc l)

abbrev pub newlines : ℕ → Bytes
newlines k = replicate k b'\n'

not_newline : (c : ℕ) → (c == b'\n') ≡ false → c ≢ b'\n'
not_newline c h = ground arith

is_newline : (c : ℕ) → (c == b'\n') ≡ true → c ≡ b'\n'
is_newline c h = ground arith

-- `r` with newlines behind it, and none at its end.
abbrev pub IsTrimmed : Bytes → Bytes → Type 0
IsTrimmed bf r = (k : ℕ) × (bf ≡ r ++ newlines k) × (last_byte r ≢ b'\n')

newlines_snoc : (k : ℕ) → newlines k ++ b'\n' ∷ [] ≡ newlines (suc k)
newlines_snoc zero = refl
newlines_snoc (suc k) = ap (λ t. b'\n' ∷ t) (newlines_snoc k)

put_back :
    (bf p r : Bytes) (c k : ℕ)
    → bf ≡ p ++ c ∷ []
    → c ≡ b'\n'
    → p ≡ r ++ newlines k
    → bf ≡ r ++ newlines (suc k)
put_back bf p r c k e byte split =
    e
    ∙ ap (λ b. p ++ b ∷ []) byte
    ∙ ap (λ t. t ++ b'\n' ∷ []) split
    ∙ append_assoc r (newlines k) (b'\n' ∷ [])
    ∙ ap (λ t. r ++ t) (newlines_snoc k)

loop-IsTrimmed : (n : ℕ) (bf : Bytes) → length bf ≡ n → IsTrimmed bf (trim_lines_loop n bf)
unfolding trim_lines_loop
loop-IsTrimmed zero [] h = (0, refl, omega arith)
loop-IsTrimmed zero (c ∷ bf) h = absurd (omega arith)
loop-IsTrimmed (suc n) [] h = absurd (omega arith)
loop-IsTrimmed (suc n) (c ∷ bf) h =
    let at : length bf ≡ n = omega arith in
    let last : suc (length bf) - 1 ≡ n = omega arith in
    let (e, l) = pop_last c bf in
    elim (Bool-cases (get_or (c ∷ bf) n 0 == b'\n')) [
      | inr other ↦
          rw (trim_lines_loop, other)
            (0, sym (append-nil (c ∷ bf)), rw last (not_newline (get_or (c ∷ bf) n 0) other))
      | inl same ↦
          let (k, split, end) = loop-IsTrimmed n (buffer_pop (c ∷ bf)) (l ∙ at) in
          let r = trim_lines_loop n (buffer_pop (c ∷ bf)) in
          let byte : get_or (c ∷ bf) (length bf) 0 ≡ b'\n' =
            rw at (is_newline (get_or (c ∷ bf) n 0) same) in
          rw (trim_lines_loop, same)
            (suc k, put_back (c ∷ bf) (buffer_pop (c ∷ bf)) r _ k e byte split, end)
    ]

-- `buffer_trim_lines` takes the newlines at the end of the buffer away, and nothing else.
pub buffer_trim_lines-IsTrimmed : (bf : Bytes) → IsTrimmed bf (buffer_trim_lines bf)
unfolding buffer_trim_lines
buffer_trim_lines-IsTrimmed bf = loop-IsTrimmed (length bf) bf refl
