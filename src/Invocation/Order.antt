-- ===== src/Invocation/Order.antt =====
-- The order in which robsd-ls walks the directories.
use mathlib.Core.List.{Permᴰ}
use mathlib.Core.List.Permᴰ
use robsd.Base.{
  ℕ, zero, suc, ◌<◌, ◌≤ℤ◌, List, [], ◌∷◌, ◌++◌, Option, none, some, Bytes, length, str_eq, ℤ, pos,
  done, ltb, All-map, ◌⊎◌, All, ◌≡◌, refl, sym, ap, ◌∙◌, arith, append_assoc, append-nil,
  if◌then◌else◌, Bool-cases, inl, inr,
}
use robsd.Invocation.{
  InvocationEntry, Directory, strcmp, directory_desc_cmp, sort_desc, sorted_by, match_directory,
  invocation_read, invocation_alloc, invocation_walk, walk_loop,
}

-- No entry is behind one that it should be before, for a comparison.
abbrev pub Rising : (InvocationEntry → InvocationEntry → ℤ) → List InvocationEntry → Type 0
Rising cmp [] = Unit
Rising cmp (x ∷ xs) = All (λ y. cmp x y ≤ℤ pos 0) xs × Rising cmp xs

-- The other way round.
abbrev pub Falling : (InvocationEntry → InvocationEntry → ℤ) → List InvocationEntry → Type 0
Falling cmp [] = Unit
Falling cmp (x ∷ xs) = All (λ y. cmp y x ≤ℤ pos 0) xs × Falling cmp xs

-- What the loop prints for entries, one by one: all but the build directory.
unfoldable pub listing : Option Bytes → List InvocationEntry → Bytes
listing none [] = []
listing (some dir) [] = []
listing none (x ∷ xs) = x.path ++ b'\n' ∷ listing none xs
listing (some dir) (x ∷ xs) =
    let rest = listing (some dir) xs in if str_eq x.path dir then rest else x.path ++ b'\n' ∷ rest

walk-snoc :
    (xs : List InvocationEntry) (x : InvocationEntry)
    → invocation_walk (xs ++ x ∷ []) ≡ (some x, xs)
unfolding invocation_walk
walk-snoc [] x = refl
walk-snoc (y ∷ []) x = refl
walk-snoc (y ∷ z ∷ xs) x = ap (λ r. (r.0, y ∷ r.1)) (walk-snoc (z ∷ xs) x)

-- The entries from the last on, with the others behind it.
rev : List InvocationEntry → List InvocationEntry
rev [] = []
rev (x ∷ xs) = rev xs ++ x ∷ []

rev-snoc : (xs : List InvocationEntry) (x : InvocationEntry) → rev (xs ++ x ∷ []) ≡ x ∷ rev xs
unfolding rev
rev-snoc [] x = refl
rev-snoc (y ∷ xs) x = ap (λ l. l ++ y ∷ []) (rev-snoc xs x)

rev-rev : (xs : List InvocationEntry) → rev (rev xs) ≡ xs
unfolding rev
rev-rev [] = refl
rev-rev (x ∷ xs) = rev-snoc (rev xs) x ∙ ap (λ l. x ∷ l) (rev-rev xs)

length-rev : (xs : List InvocationEntry) → length (rev xs) ≡ length xs
unfolding rev
length-rev [] = refl
length-rev (x ∷ xs) = length-snoc (rev xs) x ∙ ap {B = ℕ} (λ n. suc n) (length-rev xs)
  where
    length-snoc :
        (ys : List InvocationEntry) (y : InvocationEntry) → length (ys ++ y ∷ []) ≡ suc (length ys)
    length-snoc [] y = refl
    length-snoc (z ∷ ys) y = ap {B = ℕ} (λ n. suc n) (length-snoc ys y)

walk-nil : invocation_walk [] ≡ (none, [])
unfolding invocation_walk
walk-nil = refl

line : (out path rest : Bytes) → out ++ path ++ b'\n' ∷ [] ++ rest ≡ out ++ (path ++ b'\n' ∷ rest)
line out path rest =
    append_assoc (out ++ path) (b'\n' ∷ []) rest ∙ append_assoc out path (b'\n' ∷ rest)

-- The loop on entries of which `ws` is the walk.
loop-walk :
    (fuel : ℕ) (builddir : Option Bytes) (ws : List InvocationEntry) (out : Bytes)
    → length ws < fuel
    → walk_loop fuel builddir (rev ws) out ≡ done (out ++ listing builddir ws)
unfolding walk_loop listing rev
loop-walk zero builddir ws out h = absurd (omega arith)
loop-walk (suc fuel) none [] out h = rw (walk_loop, walk-nil) (ap done (sym (append-nil out)))
loop-walk (suc fuel) (some dir) [] out h = rw (walk_loop, walk-nil) (ap done (sym (append-nil out)))
loop-walk (suc fuel) none (w ∷ ws) out h =
    rw (walk_loop, walk-snoc (rev ws) w)
      (rw (walk-snoc (rev ws) w) (
        loop-walk fuel none ws (out ++ w.path ++ b'\n' ∷ []) (omega arith)
        ∙ ap done (line out w.path (listing none ws))))
loop-walk (suc fuel) (some dir) (w ∷ ws) out h = elim (Bool-cases (str_eq w.path dir)) [
  | inl e ↦
      rw (walk_loop, walk-snoc (rev ws) w)
        (rw e (rw (walk-snoc (rev ws) w) (loop-walk fuel (some dir) ws out (omega arith))))
  | inr e ↦
      rw (walk_loop, walk-snoc (rev ws) w)
        (rw e (
          rw (walk-snoc (rev ws) w) (
            loop-walk fuel (some dir) ws (out ++ w.path ++ b'\n' ∷ []) (omega arith)
            ∙ ap done (line out w.path (listing (some dir) ws)))))
]

Falling-snoc :
    (cmp : InvocationEntry → InvocationEntry → ℤ) (ws : List InvocationEntry) (x : InvocationEntry)
    → Falling cmp ws
    → All (λ y. cmp x y ≤ℤ pos 0) ws
    → Falling cmp (ws ++ x ∷ [])
Falling-snoc cmp [] x h a = (tt, tt)
Falling-snoc cmp (w ∷ ws) x (h, hs) (a, as') = (snoc ws h, Falling-snoc cmp ws x hs as')
  where
    snoc :
        (ys : List InvocationEntry)
        → All (λ y. cmp y w ≤ℤ pos 0) ys
        → All (λ y. cmp y w ≤ℤ pos 0) (ys ++ x ∷ [])
    snoc [] p = (a, tt)
    snoc (y ∷ ys) (p, ps) = (p, snoc ys ps)

All-rev : (P : InvocationEntry → Type 0) (xs : List InvocationEntry) → All P xs → All P (rev xs)
unfolding rev
All-rev P [] h = tt
All-rev P (x ∷ xs) (h, hs) = snoc (rev xs) (All-rev P xs hs)
  where
    snoc : (ys : List InvocationEntry) → All P ys → All P (ys ++ x ∷ [])
    snoc [] p = (h, tt)
    snoc (y ∷ ys) (p, ps) = (p, snoc ys ps)

rev-Falling :
    (cmp : InvocationEntry → InvocationEntry → ℤ) (xs : List InvocationEntry)
    → Rising cmp xs
    → Falling cmp (rev xs)
unfolding rev
rev-Falling cmp [] h = tt
rev-Falling cmp (x ∷ xs) (h, hs) =
    Falling-snoc cmp (rev xs) x (rev-Falling cmp xs hs) (All-rev _ xs h)

snoc-Permᴰ : (x : InvocationEntry) (xs : List InvocationEntry) → Permᴰ (x ∷ xs) (xs ++ x ∷ [])
snoc-Permᴰ x [] = Permᴰ.refl (x ∷ [])
snoc-Permᴰ x (y ∷ xs) = Permᴰ.trans (Permᴰ.swap refl refl) (Permᴰ.cons refl (snoc-Permᴰ x xs))

rev-Permᴰ : (xs : List InvocationEntry) → Permᴰ xs (rev xs)
unfolding rev
rev-Permᴰ [] = Permᴰ.nil
rev-Permᴰ (x ∷ xs) = Permᴰ.trans (Permᴰ.cons refl (rev-Permᴰ xs)) (snoc-Permᴰ x (rev xs))

-- The order of strings, byte by byte.
abbrev pub Precedes : Bytes → Bytes → Type 0
Precedes [] b = Unit
Precedes (x ∷ a) [] = ⊥
Precedes (x ∷ a) (y ∷ b) = (x < y) ⊎ ((x ≡ y) × Precedes a b)

strcmp-Precedes : (a b : Bytes) → strcmp a b ≤ℤ pos 0 → Precedes a b
unfolding strcmp
strcmp-Precedes [] b h = tt
strcmp-Precedes (x ∷ a) [] h = absurd (omega arith)
strcmp-Precedes (x ∷ a) (y ∷ b) h = elim (Bool-cases (ltb x y)) [
  | inl e ↦ inl (ground arith)
  | inr e ↦ elim (Bool-cases (ltb y x)) [
    | inl f ↦ absurd (omega (arith, rw (strcmp, e, f) at h))
    | inr f ↦ inr (ground arith, strcmp-Precedes a b (rw (strcmp, e, f) at h))
  ]
]

-- No path is behind a smaller one.
abbrev pub IsNewestFirst : List InvocationEntry → Type 0
IsNewestFirst [] = Unit
IsNewestFirst (x ∷ xs) = All (λ y. Precedes y.path x.path) xs × IsNewestFirst xs

Falling-IsNewestFirst :
    (ws : List InvocationEntry) → Falling directory_desc_cmp ws → IsNewestFirst ws
unfolding directory_desc_cmp
Falling-IsNewestFirst [] h = tt
Falling-IsNewestFirst (w ∷ ws) (h, hs) = (
  All-map _ (λ y. Precedes y.path w.path) (λ y p. strcmp-Precedes y.path w.path p) ws h,
  Falling-IsNewestFirst ws hs,
)

-- Where the directory can be read, and `sort` sorts the entries that match by `directory_desc_cmp`:
-- `invocation_alloc` succeeds, and the loop of robsd-ls over its result prints each of these entries
-- once, but for the build directory that is left out, and no path before one that is greater in the order
-- of bytes.
pub alloc-walk_loop :
    (path_max name_max : ℕ)
    (sort : (InvocationEntry → InvocationEntry → ℤ) → List InvocationEntry → List InvocationEntry)
    (readdir : Bytes → Option Directory) (robsddir keepdir : Bytes) (builddir : Option Bytes)
    (matched : List InvocationEntry)
    → invocation_read path_max name_max readdir robsddir
        (match_directory path_max name_max robsddir keepdir)
      ≡ some matched
    → Permᴰ matched (sort directory_desc_cmp matched)
    → Rising directory_desc_cmp (sort directory_desc_cmp matched)
    → (ds : List InvocationEntry) × (ws : List InvocationEntry) × (invocation_alloc path_max
          name_max sort readdir robsddir keepdir sort_desc
        ≡ some ds)
      × Permᴰ matched ws
      × IsNewestFirst ws
      × (walk_loop (suc (length ds)) builddir ds [] ≡ done (listing builddir ws))
unfolding invocation_alloc sorted_by
alloc-walk_loop path_max name_max sort readdir robsddir keepdir builddir matched e p r =
    let ds = sort directory_desc_cmp matched in
    let long = length-rev ds in
    let loop = loop-walk (suc (length ds)) builddir (rev ds) [] (omega (arith, long)) in
    (
      ds,
      rev ds,
      rw (invocation_alloc, e) refl,
      Permᴰ.trans p (rev-Permᴰ ds),
      Falling-IsNewestFirst (rev ds) (rev-Falling directory_desc_cmp ds r),
      ap (λ l. walk_loop (suc (length ds)) builddir l []) (sym (rev-rev ds)) ∙ loop,
    )
