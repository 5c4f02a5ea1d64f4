-- ===== src/Mode/Names.antt =====
-- A mode and its name, mode.c.
use robsd.Base.{some, Bytes, codes, str_eq_iff, ◌≡◌, ◌↔◌, refl, arith}
use robsd.Mode.{RobsdMode, plain_robsd, robsd_mode_str, robsd_mode_parse}

str-parse : (s : Bytes) (m : RobsdMode) → robsd_mode_parse s ≡ some m → s ≡ robsd_mode_str m
unfolding robsd_mode_parse robsd_mode_str
str-parse s m h = ground (
  arith,
  str_eq_iff s (codes "robsd"),
  str_eq_iff s (codes "robsd-cross"),
  str_eq_iff s (codes "robsd-ports"),
  str_eq_iff s (codes "robsd-regress"),
  str_eq_iff s (codes "canvas"),
)

parse-str : (m : RobsdMode) → robsd_mode_parse (robsd_mode_str m) ≡ some m
unfolding robsd_mode_parse robsd_mode_str
parse-str plain_robsd = refl
parse-str _ = refl

-- A text is parsed to a mode exactly when it is that mode's name.
pub parse_iff_str :
    (s : Bytes) (m : RobsdMode) → (robsd_mode_parse s ≡ some m) ↔ (s ≡ robsd_mode_str m)
parse_iff_str s m = (str-parse s m, λ e. rw e (parse-str m))
