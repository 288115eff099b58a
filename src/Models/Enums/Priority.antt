-- ===== src/Models/Enums/Priority.antt =====
-- models/enums.go: Priority.
use go_wsc.Base.{String, string_eq}

abbrev pub Priority : Type 0
Priority = String

abbrev pub low : Priority
low = "low"

abbrev pub normal : Priority
normal = "normal"

abbrev pub high : Priority
high = "high"

abbrev pub urgent : Priority
urgent = "urgent"

abbrev pub critical : Priority
critical = "critical"
