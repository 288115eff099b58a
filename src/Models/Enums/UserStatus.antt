-- ===== src/Models/Enums/UserStatus.antt =====
-- models/enums.go: UserStatus.
use go_wsc.Base.{String, string_eq, if◌then◌else◌, str_eq}
use go_wsc.Base.Int.{ℤ, pos, eqb_ℤ}

abbrev pub UserStatus : Type 0
UserStatus = String

abbrev pub online : UserStatus
online = "online"

abbrev pub offline : UserStatus
offline = "offline"

abbrev pub busy : UserStatus
busy = "busy"

abbrev pub away : UserStatus
away = "away"

abbrev pub invisible : UserStatus
invisible = "invisible"

unfoldable pub user_status_from_int : ℤ → UserStatus
user_status_from_int val =
    if eqb_ℤ val (pos 0)
    then online
    else if eqb_ℤ val (pos 1)
    then busy
    else if eqb_ℤ val (pos 2)
    then away
    else if eqb_ℤ val (pos 3)
    then invisible
    else offline

unfoldable pub to_int : UserStatus → ℤ
to_int s =
    if str_eq s online
    then pos 0
    else if str_eq s busy
    then pos 1
    else if str_eq s away
    then pos 2
    else if str_eq s invisible
    then pos 3
    else pos 4
