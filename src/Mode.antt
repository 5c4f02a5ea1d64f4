-- ===== src/Mode.antt =====
-- The modes of mode.h and mode.c; `plain_robsd` is ROBSD.
pub mod Names
use robsd.Base.{Bool, List, [], ◌∷◌, Option, none, some, if◌then◌else◌, Bytes, codes, str_eq}

pub data RobsdMode : Type 0 where
  plain_robsd robsd_cross robsd_ports robsd_regress canvas : RobsdMode

unfoldable pub robsd_mode_str : RobsdMode → Bytes
robsd_mode_str plain_robsd = codes "robsd"
robsd_mode_str robsd_cross = codes "robsd-cross"
robsd_mode_str robsd_ports = codes "robsd-ports"
robsd_mode_str robsd_regress = codes "robsd-regress"
robsd_mode_str canvas = codes "canvas"

-- `none` for the result 1, an unknown mode.
unfoldable pub robsd_mode_parse : Bytes → Option RobsdMode
unfolding str_eq
robsd_mode_parse mode =
    if str_eq mode (codes "robsd")
    then some plain_robsd
    else if str_eq mode (codes "robsd-cross")
    then some robsd_cross
    else if str_eq mode (codes "robsd-ports")
    then some robsd_ports
    else if str_eq mode (codes "robsd-regress")
    then some robsd_regress
    else if str_eq mode (codes "canvas")
    then some canvas
    else none
