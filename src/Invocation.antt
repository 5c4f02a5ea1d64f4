-- ===== src/Invocation.antt =====
-- Invocations, invocation.c: the directories of builds, in order, and their tags; and robsd-ls.c on top
-- of them.
--
-- Arguments: `path_max` and `name_max`, the limits of the system; `readdir`, what opendir(3) and
-- readdir(3) give for a directory; `sort`, which stands for VECTOR_SORT; the contents of the file of
-- tags. A string that does not fit is cut off, as snprintf(3) does.
pub mod Order
pub mod Program
use robsd.Base.{
  ℕ, zero, suc, ◌+◌, ◌-◌, Bool, true, false, not, ◌&&◌, ◌||◌, List, [], ◌∷◌, ◌++◌, Option, none,
  some, ltb, ◌==◌, if◌then◌else◌, Bytes, codes, length, take, drop, str_eq, starts_with, ℤ, pos,
  negsuc, Result, done, failed, out_of_fuel,
}
use robsd.Config.Grammar.{fnmatch}

pub record Dirent : Type 0 where
  pub d_name : Bytes
  pub is_dir : Bool

-- The entries of a directory, and whether readdir(3) failed behind them.
pub record Directory : Type 0 where
  pub entries : List Dirent
  pub error : Bool

pub record InvocationEntry : Type 0 where
  pub path : Bytes
  pub basename : Bytes

-- strcmp(3): its sign.
unfoldable pub strcmp : Bytes → Bytes → ℤ
strcmp [] [] = pos 0
strcmp [] (y ∷ ys) = negsuc 0
strcmp (x ∷ xs) [] = pos 1
strcmp (x ∷ xs) (y ∷ ys) =
    let rest = strcmp xs ys in if ltb x y then negsuc 0 else if ltb y x then pos 1 else rest

abbrev negated : ℤ → ℤ
negated (pos zero) = pos 0
negated (pos (suc n)) = negsuc n
negated (negsuc n) = pos (suc n)

unfoldable pub directory_asc_cmp : InvocationEntry → InvocationEntry → ℤ
unfolding strcmp
directory_asc_cmp a b = negated (strcmp a.path b.path)

unfoldable pub directory_desc_cmp : InvocationEntry → InvocationEntry → ℤ
unfolding strcmp
directory_desc_cmp a b = strcmp a.path b.path

is_hidden : Bytes → Bool
is_hidden [] = false
is_hidden (c ∷ name) = c == b'.'

pub data SortFlag : Type 0 where
  unsorted sort_asc sort_desc : SortFlag

module _ (path_max name_max : ℕ) where
  unfoldable pub format_path : Bytes → Bytes → Bytes
  format_path dir name = take (path_max - 1) (dir ++ b'/' ∷ name)

  entry_of : Bytes → Dirent → InvocationEntry
  unfolding format_path
  entry_of dir de = record { path = format_path dir de.d_name; basename = take name_max de.d_name }

  -- The loop over the entries.
  unfoldable pub read_loop :
      Bytes → (Dirent → Bool) → List Dirent → List InvocationEntry → List InvocationEntry
  unfolding is_hidden entry_of
  read_loop dir match [] directories = directories
  read_loop dir match (de ∷ des) directories =
      let rest = read_loop dir match des in
      if is_hidden de.d_name
      then rest directories
      else if not (match de)
      then rest directories
      else rest (directories ++ entry_of dir de ∷ [])

  -- `none` for the result 1.
  unfoldable pub invocation_read :
      (Bytes → Option Directory) → Bytes → (Dirent → Bool) → Option (List InvocationEntry)
  unfolding read_loop
  invocation_read readdir dir match = elim (readdir dir) [
    | none ↦ none
    | some d ↦ if d.error then none else some (read_loop dir match d.entries [])
  ]

  unfoldable pub match_directory : Bytes → Bytes → Dirent → Bool
  unfolding format_path
  match_directory robsddir keepdir de =
      if de.is_dir then not (str_eq (format_path robsddir de.d_name) keepdir) else false

  unfoldable pub sorted_by :
      ((InvocationEntry → InvocationEntry → ℤ) → List InvocationEntry → List InvocationEntry)
      → SortFlag
      → List InvocationEntry
      → List InvocationEntry
  sorted_by sort unsorted directories = directories
  sorted_by sort sort_asc directories = sort directory_asc_cmp directories
  sorted_by sort sort_desc directories = sort directory_desc_cmp directories

  unfoldable pub invocation_alloc :
      ((InvocationEntry → InvocationEntry → ℤ) → List InvocationEntry → List InvocationEntry)
      → (Bytes → Option Directory)
      → Bytes
      → Bytes
      → SortFlag
      → Option (List InvocationEntry)
  unfolding invocation_read sorted_by match_directory
  invocation_alloc sort readdir robsddir keepdir flags =
      elim (invocation_read readdir robsddir (match_directory robsddir keepdir)) [
        | none ↦ none
        | some directories ↦ some (sorted_by sort flags directories)
      ]

  -- A pattern of fnmatch(3) has no special byte but the star.
  unfoldable pub invocation_find :
      (Bytes → Option Directory) → Bytes → Bytes → Option (List InvocationEntry)
  unfolding invocation_read fnmatch
  invocation_find readdir dir pattern =
      invocation_read readdir dir (λ de. fnmatch pattern de.d_name)

-- VECTOR_POP: the last entry.
unfoldable pub invocation_walk :
    List InvocationEntry → Option InvocationEntry × List InvocationEntry
invocation_walk [] = (none, [])
invocation_walk (x ∷ []) = (some x, [])
invocation_walk (x ∷ y ∷ xs) = let r = invocation_walk (y ∷ xs) in (r.0, x ∷ r.1)

-- strstr(3): the byte before the first place, if there is one, and the text behind the tag.
unfoldable pub find_tag : Option ℕ → Bytes → Bytes → Option (Option ℕ × Bytes)
find_tag before [] tag = if starts_with [] tag then some (before, drop (length tag) []) else none
find_tag before (c ∷ buf) tag =
    let rest = find_tag (some c) buf tag in
    if starts_with (c ∷ buf) tag then some (before, drop (length tag) (c ∷ buf)) else rest

begins_word : Option ℕ → Bool
begins_word none = true
begins_word (some c) = c == b' '

ends_word : Bytes → Bool
ends_word [] = true
ends_word (c ∷ rest) = c == b' ' || c == b'\n'

-- The file of tags holds no NUL.
unfoldable pub invocation_has_tag : Option Bytes → Bytes → Bool
unfolding find_tag begins_word ends_word
invocation_has_tag none tag = false
invocation_has_tag (some buf) tag = elim (find_tag none buf tag) [
  | none ↦ false
  | some (before, behind) ↦ begins_word before && ends_word behind
]

-- The loop of robsd-ls over the entries.
unfoldable pub walk_loop : ℕ → Option Bytes → List InvocationEntry → Bytes → Result Bytes
walk_loop zero builddir directories out = out_of_fuel
walk_loop (suc fuel) builddir directories out =
    let r = invocation_walk directories in
    let skip = walk_loop fuel builddir r.1 out in
    elim r.0 [
      | none ↦ done out
      | some entry ↦
          let next = walk_loop fuel builddir r.1 (out ++ entry.path ++ b'\n' ∷ []) in
          elim builddir [ none ↦ next | some dir ↦ if str_eq entry.path dir then skip else next ]
    ]
