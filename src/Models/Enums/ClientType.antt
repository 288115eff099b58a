-- ===== src/Models/Enums/ClientType.antt =====
-- models/enums.go: ClientType.
use go_wsc.Base.{String, [], ◌∷◌, one_of, string_eq, if◌then◌else◌, str_eq}

abbrev pub ClientType : Type 0
ClientType = String

abbrev pub web : ClientType
web = "web"

abbrev pub mobile : ClientType
mobile = "mobile"

abbrev pub desktop : ClientType
desktop = "desktop"

abbrev pub api : ClientType
api = "api"

-- models/device_type_mapper.go: the device types of go-toolbox, and the two translations.
abbrev pub device_bot : String
device_bot = "bot"

abbrev pub device_tablet : String
device_tablet = "tablet"

abbrev pub device_mobile : String
device_mobile = "mobile"

abbrev pub device_desktop : String
device_desktop = "desktop"

abbrev pub device_unknown : String
device_unknown = "unknown"

unfoldable pub map_device_type_to_client_type : String → ClientType
map_device_type_to_client_type d =
    if str_eq d device_bot
    then api
    else if one_of d (device_mobile ∷ device_tablet ∷ [])
    then mobile
    else if str_eq d device_desktop
    then web
    else if str_eq d device_unknown
    then web
    else web

unfoldable pub map_client_type_to_device_type : ClientType → String
map_client_type_to_device_type c =
    if str_eq c api
    then device_bot
    else if str_eq c mobile
    then device_mobile
    else if str_eq c desktop
    then device_desktop
    else if str_eq c web
    then device_desktop
    else device_unknown
