-- ===== src/Report/Clean.antt =====
-- What `report_sanitize` gives.
use robsd.Base.{
  ℕ, [], ◌∷◌, Bytes, All, All-append, ◌≡◌, ◌≢◌, ◌==◌, arith, refl, Bool-cases, inl, inr,
}
use robsd.Report.{sanitize_byte, report_sanitize}

-- A byte that stays as it is.
abbrev pub IsClean : ℕ → Type 0
IsClean c = (c ≢ 0) × (c ≢ b'\r')

byte-All : (c : ℕ) → All IsClean (sanitize_byte c)
unfolding sanitize_byte
byte-All c = elim (Bool-cases (c == 0)) [
  | inl e ↦ rw (sanitize_byte, e) (ground arith)
  | inr e ↦ elim (Bool-cases (c == b'\r')) [
    | inl f ↦ rw (sanitize_byte, e, f) (ground arith)
    | inr f ↦ rw (sanitize_byte, e, f) (ground arith)
  ]
]

sanitize-All : (str : Bytes) → All IsClean (report_sanitize str)
unfolding report_sanitize
sanitize-All [] = tt
sanitize-All (c ∷ str) =
    All-append IsClean (sanitize_byte c) (report_sanitize str) (byte-All c) (sanitize-All str)

clean_byte : (c : ℕ) → IsClean c → sanitize_byte c ≡ c ∷ []
unfolding sanitize_byte
clean_byte c h = ground arith

sanitize_clean : (str : Bytes) → All IsClean str → report_sanitize str ≡ str
unfolding report_sanitize
sanitize_clean [] h = refl
sanitize_clean (c ∷ str) (h, hs) = rw (report_sanitize, clean_byte c h, sanitize_clean str hs) refl

-- A sanitized report has no NUL and no carriage return, and sanitizing it again changes nothing; a
-- report that has neither is left as it is.
pub report_sanitize-IsClean :
    (str : Bytes)
    → All IsClean (report_sanitize str)
      × (report_sanitize (report_sanitize str) ≡ report_sanitize str)
      × (All IsClean str → report_sanitize str ≡ str)
report_sanitize-IsClean str =
    (sanitize-All str, sanitize_clean (report_sanitize str) (sanitize-All str), sanitize_clean str)
