-- ===== src/Models/Enums/UserType.antt =====
-- models/enums.go: UserType.
use go_wsc.Base.{Bool, String, [], ◌∷◌, one_of, string_eq, str_eq}

abbrev pub UserType : Type 0
UserType = String

abbrev pub visitor : UserType
visitor = "visitor"

abbrev pub customer : UserType
customer = "customer"

abbrev pub agent : UserType
agent = "agent"

abbrev pub admin : UserType
admin = "admin"

abbrev pub bot : UserType
bot = "bot"

abbrev pub vip : UserType
vip = "vip"

abbrev pub system : UserType
system = "system"

abbrev pub observer : UserType
observer = "observer"

unfoldable pub is_customer_type : UserType → Bool
is_customer_type t = one_of t (visitor ∷ customer ∷ vip ∷ [])

unfoldable pub is_agent_type : UserType → Bool
is_agent_type t = str_eq t agent

unfoldable pub is_human_type : UserType → Bool
is_human_type t = one_of t (visitor ∷ customer ∷ agent ∷ admin ∷ vip ∷ [])

unfoldable pub is_vip_type : UserType → Bool
is_vip_type t = str_eq t vip
