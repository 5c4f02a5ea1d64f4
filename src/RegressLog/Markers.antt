-- ===== src/RegressLog/Markers.antt =====
-- The lines that `ismarker_regress` takes for the marker of a regress directory.
use robsd.Base.{
  ℕ, true, false, ◌&&◌, [], ◌∷◌, ◌++◌, Bytes, codes, starts_with, ◌==◌, ◌≡◌, ◌↔◌, refl, arith,
  Bool-cases, inl, inr,
}
use robsd.RegressLog.{to_equals, ends_marker, ismarker_regress}

-- No `=` follows a space in `m`, where `prev` stands before it.
abbrev pub Stays : ℕ → Bytes → Type 0
Stays prev [] = Unit
Stays prev (c ∷ m) = ((prev == b' ' && c == b'=') ≡ false) × Stays c m

abbrev pub last_of : ℕ → Bytes → ℕ
last_of prev [] = prev
last_of prev (c ∷ m) = last_of c m

to_equals-append :
    (prev : ℕ) (m : Bytes)
    → Stays prev m
    → last_of prev m ≡ b' '
    → to_equals prev (m ++ codes "====") ≡ codes "===="
unfolding to_equals
to_equals-append prev [] s l = rw l refl
to_equals-append prev (c ∷ m) (h, s) l = rw (to_equals, h) (to_equals-append c m s l)

marker_end : (str : Bytes) → ends_marker str ≡ true → str ≡ codes "===="
unfolding ends_marker starts_with
marker_end [] h = cc
marker_end (a ∷ []) h = ground arith
marker_end (a ∷ b ∷ []) h = ground arith
marker_end (a ∷ b ∷ c ∷ []) h = ground arith
marker_end (a ∷ b ∷ c ∷ d ∷ []) h = ground arith
marker_end (a ∷ b ∷ c ∷ d ∷ e ∷ s) h = ground arith

-- What is found begins with the first `=` behind a space.
found_lem :
    (prev : ℕ) (str : Bytes)
    → ends_marker (to_equals prev str) ≡ true
    → (m : Bytes) × (str ≡ m ++ codes "====") × Stays prev m × (last_of prev m ≡ b' ')
unfolding to_equals ends_marker
found_lem prev [] h = absurd (ground arith)
found_lem prev (c ∷ str) h = elim (Bool-cases (prev == b' ' && c == b'=')) [
  | inl e ↦ ([], marker_end (c ∷ str) (rw (to_equals, e) at h), tt, ground arith)
  | inr e ↦
      let h' : ends_marker (to_equals c str) ≡ true = rw (to_equals, e) at h in
      let (m, q, s, l) = found_lem c str h' in (c ∷ m, rw q refl, (e, s), l)
]

cons_eq :
    {a b c d e : ℕ} {str t : Bytes}
    → a ≡ b'='
    → b ≡ b'='
    → c ≡ b'='
    → d ≡ b'='
    → e ≡ b' '
    → str ≡ t
    → a ∷ b ∷ c ∷ d ∷ e ∷ str ≡ codes "==== " ++ t
cons_eq a b c d e q = rw (a, b, c, d, e, q) refl

marker_split :
    (str : Bytes)
    → ismarker_regress str ≡ true
    → (m : Bytes) × (str ≡ codes "==== " ++ m ++ codes "====")
      × Stays b' ' m
      × (last_of b' ' m ≡ b' ')
unfolding ismarker_regress starts_with
marker_split (a ∷ b ∷ c ∷ d ∷ e ∷ str) h =
    let first : (a ≡ b'=')
        × (b ≡ b'=')
        × (c ≡ b'=')
        × (d ≡ b'=')
        × (e ≡ b' ')
        × (ends_marker (to_equals e str) ≡ true) =
      ground arith in
    let (m, q, s, l) = found_lem b' ' str (rw first.4 at first.5) in
    (m, cons_eq first.0 first.1 first.2 first.3 first.4 q, s, l)
marker_split _ h = absurd (ground arith)

marker_join :
    (str m : Bytes)
    → str ≡ codes "==== " ++ m ++ codes "===="
    → Stays b' ' m
    → last_of b' ' m ≡ b' '
    → ismarker_regress str ≡ true
unfolding ismarker_regress starts_with ends_marker to_equals
marker_join str m q s l = rw q (rw (to_equals-append b' ' m s l) refl)

-- `ismarker_regress` takes the lines `==== ====` and `==== m====`, where `m` ends in a space and has
-- no space with a `=` behind it, and no others.
pub ismarker_regress_iff :
    (str : Bytes)
    → (ismarker_regress str ≡ true) ↔ (
        (m : Bytes) × (str ≡ codes "==== " ++ m ++ codes "====")
        × Stays b' ' m
        × (last_of b' ' m ≡ b' '))
unfolding ismarker_regress
ismarker_regress_iff str = (marker_split str, λ r. marker_join str r.0 r.1 r.2 r.3)
