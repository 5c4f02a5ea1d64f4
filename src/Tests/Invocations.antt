-- ===== src/Tests/Invocations.antt =====
-- The theorem on invocations at concrete inputs, and tests.
use mathlib.Core.List.{Permᴰ}
use robsd.Base.{
  suc, true, false, List, [], ◌∷◌, Option, some, Bytes, codes, length, str_eq, starts_with, ℤ, pos,
  ltb_ℤ, if◌then◌else◌, done, ◌≡◌, refl, arith,
}
use robsd.Invocation.{
  Directory, InvocationEntry, directory_desc_cmp, strcmp, sort_desc, match_directory,
  invocation_read, invocation_alloc, invocation_has_tag, walk_loop,
}
use robsd.Invocation.Order.{IsNewestFirst, listing, alloc-walk_loop}

abbrev insert :
    (InvocationEntry → InvocationEntry → ℤ)
    → InvocationEntry
    → List InvocationEntry
    → List InvocationEntry
insert cmp x [] = x ∷ []
insert cmp x (y ∷ ys) = if ltb_ℤ (cmp y x) (pos 0) then y ∷ insert cmp x ys else x ∷ y ∷ ys

abbrev sort : (InvocationEntry → InvocationEntry → ℤ) → List InvocationEntry → List InvocationEntry
sort cmp [] = []
sort cmp (x ∷ xs) = insert cmp x (sort cmp xs)

-- A directory with two builds, the attic and a hidden file.
abbrev builds : Bytes → Option Directory
builds path = some (record {
  entries =
      record { d_name = codes "2"; is_dir = true }
      ∷ record { d_name = codes "attic"; is_dir = true }
      ∷ record { d_name = codes ".running"; is_dir = false }
      ∷ record { d_name = codes "1"; is_dir = true }
      ∷ [];
  error = false;
})

abbrev entry : Bytes → Bytes → InvocationEntry
entry path basename = record { path = path; basename = basename }

abbrev first : InvocationEntry
first = entry (codes "/b/1") (codes "1")

abbrev second : InvocationEntry
second = entry (codes "/b/2") (codes "2")

builds_matched :
    invocation_read 1024 255 builds
      (codes "/b")
      (match_directory 1024 255 (codes "/b") (codes "/b/attic"))
    ≡ some (second ∷ first ∷ [])
unfolding invocation_read match_directory str_eq
builds_matched = refl

alloc-walk_loop_example :
    (ds : List InvocationEntry) × (ws : List InvocationEntry) × (invocation_alloc 1024 255 sort
        builds
        (codes "/b")
        (codes "/b/attic")
        sort_desc
      ≡ some ds)
    × Permᴰ (second ∷ first ∷ []) ws
    × IsNewestFirst ws
    × (walk_loop (suc (length ds)) (some (codes "/b/2")) ds []
        ≡ done (listing (some (codes "/b/2")) ws))
unfolding directory_desc_cmp strcmp
alloc-walk_loop_example =
    alloc-walk_loop 1024 255 sort builds (codes "/b") (codes "/b/attic") (some (codes "/b/2"))
      (second ∷ first ∷ []) builds_matched (Permᴰ.swap refl refl) ((omega arith, tt), (tt, tt))

-- A tag is missed behind a word that ends like it.
has_tag_behind_word : invocation_has_tag (some (codes "nocvs cvs\n")) (codes "cvs") ≡ false
unfolding invocation_has_tag starts_with
has_tag_behind_word = refl

has_tag_alone : invocation_has_tag (some (codes "cvs nocvs\n")) (codes "cvs") ≡ true
unfolding invocation_has_tag starts_with
has_tag_alone = refl
