-- ===== src/Config/Token.antt =====
-- The tokens of configurations, conf-token.c and conf-token.h. A type of token is its number in the
-- enumeration. The map of libks holds each key of the table once, so that a search of the table
-- gives what MAP_FIND gives.
use robsd.Base.{ℕ, Bool, ◌&&◌, ◌||◌, List, [], ◌∷◌, ◌==◌, if◌then◌else◌, Bytes, codes, str_eq}
use robsd.Mode.{RobsdMode, plain_robsd, robsd_cross, robsd_ports, robsd_regress, canvas}

abbrev pub token_unknown : ℕ
token_unknown = 0

abbrev pub token_boolean : ℕ
token_boolean = 1

abbrev pub token_integer : ℕ
token_integer = 2

abbrev pub token_string : ℕ
token_string = 3

abbrev pub token_keyword : ℕ
token_keyword = 4

abbrev pub token_lbrace : ℕ
token_lbrace = 5

abbrev pub token_rbrace : ℕ
token_rbrace = 6

abbrev pub token_command : ℕ
token_command = 7

abbrev pub token_env : ℕ
token_env = 8

abbrev pub token_hours : ℕ
token_hours = 9

abbrev pub token_minutes : ℕ
token_minutes = 10

abbrev pub token_no : ℕ
token_no = 11

abbrev pub token_no_parallel : ℕ
token_no_parallel = 12

abbrev pub token_obj : ℕ
token_obj = 13

abbrev pub token_packages : ℕ
token_packages = 14

abbrev pub token_parallel : ℕ
token_parallel = 15

abbrev pub token_quiet : ℕ
token_quiet = 16

abbrev pub token_root : ℕ
token_root = 17

abbrev pub token_seconds : ℕ
token_seconds = 18

abbrev pub token_targets : ℕ
token_targets = 19

abbrev pub token_timeout : ℕ
token_timeout = 20

abbrev pub token_yes : ℕ
token_yes = 21

-- The number of a mode in its enumeration; 0 in the table stands for all modes.
abbrev mode_number : RobsdMode → ℕ
mode_number plain_robsd = 0
mode_number robsd_cross = 1
mode_number robsd_ports = 2
mode_number robsd_regress = 3
mode_number canvas = 4

record TokenType : Type 0 where
  key : Bytes
  mode : ℕ
  type : ℕ

abbrev token_types : List TokenType
token_types =
    record { key = codes "{"; mode = 0; type = token_lbrace }
    ∷ record { key = codes "}"; mode = 0; type = token_rbrace }
    ∷ record { key = codes "command"; mode = 4; type = token_command }
    ∷ record { key = codes "env"; mode = 3; type = token_env }
    ∷ record { key = codes "h"; mode = 3; type = token_hours }
    ∷ record { key = codes "m"; mode = 3; type = token_minutes }
    ∷ record { key = codes "no"; mode = 0; type = token_no }
    ∷ record { key = codes "no-parallel"; mode = 3; type = token_no_parallel }
    ∷ record { key = codes "obj"; mode = 3; type = token_obj }
    ∷ record { key = codes "packages"; mode = 3; type = token_packages }
    ∷ record { key = codes "parallel"; mode = 4; type = token_parallel }
    ∷ record { key = codes "quiet"; mode = 3; type = token_quiet }
    ∷ record { key = codes "root"; mode = 3; type = token_root }
    ∷ record { key = codes "s"; mode = 0; type = token_seconds }
    ∷ record { key = codes "targets"; mode = 3; type = token_targets }
    ∷ record { key = codes "timeout"; mode = 3; type = token_timeout }
    ∷ record { key = codes "yes"; mode = 0; type = token_yes }
    ∷ []

-- The entry is one that `token_type_lookup_alloc` inserts for the mode, and has this key.
unfoldable pub is_token : RobsdMode → Bytes → ℕ → Bytes → Bool
is_token m key mode str = (mode == 0 || mode == mode_number m) && str_eq key str

find_token : RobsdMode → List TokenType → Bytes → ℕ → ℕ
unfolding is_token
find_token m [] str fallback = fallback
find_token m (t ∷ ts) str fallback =
    if is_token m t.key t.mode str then t.type else find_token m ts str fallback

unfoldable pub token_type_lookup : RobsdMode → Bytes → ℕ → ℕ
unfolding find_token
token_type_lookup m str fallback = find_token m token_types str fallback
