-- ===== src/Models/Enums/VipLevel.antt =====
-- models/enums.go: VipLevel.
use go_wsc.Base.{Bool, ◌||◌, String, List, [], ◌∷◌, string_eq, if◌then◌else◌, get_or, str_eq}
use go_wsc.Base.Int.{ℤ, pos, ltb_ℤ, pos_part}

abbrev pub VipLevel : Type 0
VipLevel = String

abbrev pub v0 : VipLevel
v0 = "v0"

abbrev pub v1 : VipLevel
v1 = "v1"

abbrev pub v2 : VipLevel
v2 = "v2"

abbrev pub v3 : VipLevel
v3 = "v3"

abbrev pub v4 : VipLevel
v4 = "v4"

abbrev pub v5 : VipLevel
v5 = "v5"

abbrev pub v6 : VipLevel
v6 = "v6"

abbrev pub v7 : VipLevel
v7 = "v7"

abbrev pub v8 : VipLevel
v8 = "v8"

unfoldable pub get_level : VipLevel → ℤ
get_level v =
    if str_eq v v0
    then pos 0
    else if str_eq v v1
    then pos 1
    else if str_eq v v2
    then pos 2
    else if str_eq v v3
    then pos 3
    else if str_eq v v4
    then pos 4
    else if str_eq v v5
    then pos 5
    else if str_eq v v6
    then pos 6
    else if str_eq v v7
    then pos 7
    else if str_eq v v8
    then pos 8
    else pos 0

unfoldable pub is_higher_than : VipLevel → VipLevel → Bool
unfolding get_level
is_higher_than v other = ltb_ℤ (get_level other) (get_level v)

abbrev pub get_all_vip_levels : List VipLevel
get_all_vip_levels = v0 ∷ v1 ∷ v2 ∷ v3 ∷ v4 ∷ v5 ∷ v6 ∷ v7 ∷ v8 ∷ []

-- The array literal at an index; out of its range Go would panic, and the guard keeps it inside.
unfoldable pub vip_level_from_level : ℤ → VipLevel
vip_level_from_level level =
    if ltb_ℤ level (pos 0) || ltb_ℤ (pos 8) level
    then v0
    else get_or get_all_vip_levels (pos_part level) v0
