-- ===== src/Models/Enums/UrgencyLevel.antt =====
-- models/enums.go: UrgencyLevel.
use go_wsc.Base.{Bool, String, string_eq, if◌then◌else◌, str_eq}
use go_wsc.Base.Int.{ℤ, pos, ltb_ℤ}

abbrev pub UrgencyLevel : Type 0
UrgencyLevel = String

abbrev pub low : UrgencyLevel
low = "low"

abbrev pub normal : UrgencyLevel
normal = "normal"

abbrev pub high : UrgencyLevel
high = "high"

unfoldable pub get_level : UrgencyLevel → ℤ
get_level u =
    if str_eq u low
    then pos 0
    else if str_eq u normal
    then pos 1
    else if str_eq u high
    then pos 2
    else pos 1

unfoldable pub is_more_urgent_than : UrgencyLevel → UrgencyLevel → Bool
unfolding get_level
is_more_urgent_than u other = ltb_ℤ (get_level other) (get_level u)
