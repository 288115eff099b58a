-- ===== src/Models/Enums/BusinessCategory.antt =====
-- models/enums.go: BusinessCategory.
use go_wsc.Base.{String, string_eq}

abbrev pub BusinessCategory : Type 0
BusinessCategory = String

abbrev pub general : BusinessCategory
general = "general"

abbrev pub customer : BusinessCategory
customer = "customer"

abbrev pub sales : BusinessCategory
sales = "sales"

abbrev pub technical : BusinessCategory
technical = "technical"

abbrev pub finance : BusinessCategory
finance = "finance"

abbrev pub security : BusinessCategory
security = "security"

abbrev pub operations : BusinessCategory
operations = "operations"

abbrev pub support : BusinessCategory
support = "support"

abbrev pub it : BusinessCategory
it = "it"

abbrev pub quality : BusinessCategory
quality = "quality"

abbrev pub other : BusinessCategory
other = "other"
