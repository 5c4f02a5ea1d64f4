-- ===== src/Config/Grammar/Match.antt =====
-- Names of variables that match no keyword, `grammar_equals`.
use robsd.Base.{
  ℕ, Bool, true, false, List, [], ◌∷◌, ◌++◌, ◌==◌, Bytes, str_eq, str_eq_iff, All, ◌≡◌, ◌≢◌, refl,
  arith, Bool-cases, inl, inr,
}
use robsd.Config.Grammar.{
  Grammar, any_suffix, first_byte, is_empty, fnmatch, grammar_equals,
  config_find_grammar_for_interpolation,
}

-- The last byte of a string is `c`.
unfoldable pub ends_in : ℕ → Bytes → Bool
ends_in c [] = false
ends_in c (x ∷ []) = x == c
ends_in c (x ∷ y ∷ s) = ends_in c (y ∷ s)

pub ends_in-append :
    (c : ℕ) (s : Bytes) (x : ℕ) (t : Bytes) → ends_in c (s ++ x ∷ t) ≡ ends_in c (x ∷ t)
unfolding ends_in
ends_in-append c [] x t = refl
ends_in-append c (y ∷ []) x t = refl
ends_in-append c (y ∷ z ∷ s) x t = ends_in-append c (z ∷ s) x t

ends_in_later : (c x : ℕ) (s : Bytes) → ends_in c s ≡ true → ends_in c (x ∷ s) ≡ true
unfolding ends_in
ends_in_later c x [] h = absurd (cc)
ends_in_later c x (y ∷ s) h = h

any_suffix-ends_in :
    (c : ℕ) (f : Bytes → Bool)
    → ((s : Bytes) → f s ≡ true → ends_in c s ≡ true)
    → (s : Bytes) → any_suffix f s ≡ true
    → ends_in c s ≡ true
unfolding any_suffix
any_suffix-ends_in c f hf [] h = hf [] h
any_suffix-ends_in c f hf (x ∷ s) h = elim (Bool-cases (f (x ∷ s))) [
  | inl e ↦ hf (x ∷ s) e
  | inr e ↦ ends_in_later c x s (any_suffix-ends_in c f hf s (ground arith))
]

first_byte-ends_in :
    (c x : ℕ) (f : Bytes → Bool) (p s : Bytes)
    → ((s' : Bytes) → f s' ≡ true → ends_in c p ≡ true → ends_in c s' ≡ true)
    → ((s' : Bytes) → f s' ≡ true → p ≡ [] → s' ≡ [])
    → first_byte x f s ≡ true
    → ends_in c (x ∷ p) ≡ true
    → ends_in c s ≡ true
unfolding first_byte ends_in
first_byte-ends_in c x f p [] hf hn h e = absurd (cc)
first_byte-ends_in c x f [] (y ∷ s) hf hn h e =
    let q = hn s (ground arith) refl in rw q (ground arith)
first_byte-ends_in c x f (z ∷ p) (y ∷ s) hf hn h e = ends_in_later c y s (hf s (ground arith) e)

nil_only : (s p : Bytes) → fnmatch p s ≡ true → p ≡ [] → s ≡ []
unfolding fnmatch is_empty
nil_only s (x ∷ p) h e = absurd (cc)
nil_only [] [] h e = refl
nil_only (y ∷ s) [] h e = absurd (cc)

-- A text that matches a pattern ends in the byte in which the pattern ends.
fnmatch-ends_in :
    (c : ℕ) (p s : Bytes) → c ≢ b'*' → fnmatch p s ≡ true → ends_in c p ≡ true → ends_in c s ≡ true
unfolding fnmatch ends_in
fnmatch-ends_in c [] s ne h e = absurd (cc)
fnmatch-ends_in c (x ∷ []) s ne h e = elim (Bool-cases (x == b'*')) [
  | inl star ↦ absurd (ne (ground arith))
  | inr other ↦
      first_byte-ends_in c x (fnmatch []) [] s (λ s' g a. fnmatch-ends_in c [] s' ne g a)
        (λ s' g a. nil_only s' [] g a) (rw (fnmatch, other) at h) e
]
fnmatch-ends_in c (x ∷ y ∷ p) s ne h e = elim (Bool-cases (x == b'*')) [
  | inl star ↦
      any_suffix-ends_in c (fnmatch (y ∷ p)) (λ s' g. fnmatch-ends_in c (y ∷ p) s' ne g e) s
        (rw (fnmatch, star) at h)
  | inr other ↦
      first_byte-ends_in c x (fnmatch (y ∷ p)) (y ∷ p) s
        (λ s' g a. fnmatch-ends_in c (y ∷ p) s' ne g a) (λ s' g a. nil_only s' (y ∷ p) g a)
        (rw (fnmatch, other) at h) e
]

-- A name that does not end like a keyword is not that keyword, nor matches it.
pub equals-ends_in :
    (c : ℕ) (gr : Grammar) (name : Bytes)
    → c ≢ b'*'
    → ends_in c gr.gr_kw ≡ true
    → ends_in c name ≡ false
    → grammar_equals gr name ≡ false
unfolding grammar_equals
equals-ends_in c gr name ne e differs = elim (Bool-cases (str_eq gr.gr_kw name)) [
  | inl same ↦ let q = (str_eq_iff gr.gr_kw name).0 same in absurd (cc)
  | inr other ↦ elim (Bool-cases (fnmatch gr.gr_kw name)) [
    | inl m ↦ let b = fnmatch-ends_in c gr.gr_kw name ne m e in absurd (cc)
    | inr n ↦ ground arith
  ]
]

-- The search passes over entries that are not equal.
pub lookup-behind :
    (before behind : List Grammar) (name : Bytes)
    → All (λ gr. grammar_equals gr name ≡ false) before
    → config_find_grammar_for_interpolation (before ++ behind) name
      ≡ config_find_grammar_for_interpolation behind name
unfolding config_find_grammar_for_interpolation
lookup-behind [] behind name h = refl
lookup-behind (gr ∷ before) behind name (h, hs) =
    rw (config_find_grammar_for_interpolation, h) (lookup-behind before behind name hs)

any_suffix_here : (f : Bytes → Bool) (s : Bytes) → f s ≡ true → any_suffix f s ≡ true
unfolding any_suffix
any_suffix_here f [] h = h
any_suffix_here f (x ∷ s) h = rw (any_suffix, h) refl

any_suffix_behind : (f : Bytes → Bool) (s t : Bytes) → f t ≡ true → any_suffix f (s ++ t) ≡ true
unfolding any_suffix
any_suffix_behind f [] t h = any_suffix_here f t h
any_suffix_behind f (x ∷ s) t h = ground (arith, any_suffix_behind f s t h)

pub fnmatch-star : (p s t : Bytes) → fnmatch p t ≡ true → fnmatch (b'*' ∷ p) (s ++ t) ≡ true
unfolding fnmatch
fnmatch-star p s t h = any_suffix_behind (fnmatch p) s t h
