-- ===== src/Models/MessageType/Signals.antt =====
-- models/message_type.go: the constants of the message types, from tickets to streams.
use go_wsc.Base.{String}

abbrev pub ticket_created : String
ticket_created = "ticket_created"

abbrev pub ticket_assigned : String
ticket_assigned = "ticket_assigned"

abbrev pub ticket_closed : String
ticket_closed = "ticket_closed"

abbrev pub ticket_timeout_closed : String
ticket_timeout_closed = "ticket_timeout_closed"

abbrev pub ticket_transfer : String
ticket_transfer = "ticket_transfer"

abbrev pub ticket_active : String
ticket_active = "ticket_active"

abbrev pub test : String
test = "test"

abbrev pub welcome : String
welcome = "welcome"

abbrev pub terminate : String
terminate = "terminate"

abbrev pub transferred : String
transferred = "transferred"

abbrev pub session_created : String
session_created = "session_created"

abbrev pub session_closed : String
session_closed = "session_closed"

abbrev pub session_queued : String
session_queued = "session_queued"

abbrev pub session_timeout : String
session_timeout = "session_timeout"

abbrev pub session_paused : String
session_paused = "session_paused"

abbrev pub session_resumed : String
session_resumed = "session_resumed"

abbrev pub session_transferred : String
session_transferred = "session_transferred"

abbrev pub session_member_joined : String
session_member_joined = "session_member_joined"

abbrev pub session_member_left : String
session_member_left = "session_member_left"

abbrev pub session_status_changed : String
session_status_changed = "session_status_changed"

abbrev pub check_user_status : String
check_user_status = "check_user_status"

abbrev pub user_status_response : String
user_status_response = "user_status_response"

abbrev pub get_online_users : String
get_online_users = "get_online_users"

abbrev pub online_users_list : String
online_users_list = "online_users_list"

abbrev pub get_user_info : String
get_user_info = "get_user_info"

abbrev pub user_info_response : String
user_info_response = "user_info_response"

abbrev pub system_query : String
system_query = "system_query"

abbrev pub system_response : String
system_response = "system_response"

abbrev pub user_joined : String
user_joined = "user_joined"

abbrev pub user_left : String
user_left = "user_left"

abbrev pub user_status_changed : String
user_status_changed = "user_status_changed"

abbrev pub server_status : String
server_status = "server_status"

abbrev pub server_stats : String
server_stats = "server_stats"

abbrev pub client_config : String
client_config = "client_config"

abbrev pub config_update : String
config_update = "config_update"

abbrev pub health_check : String
health_check = "health_check"

abbrev pub health_response : String
health_response = "health_response"

abbrev pub connected : String
connected = "connected"

abbrev pub client_registered : String
client_registered = "client_registered"

abbrev pub connection_rejected : String
connection_rejected = "connection_rejected"

abbrev pub disconnected : String
disconnected = "disconnected"

abbrev pub reconnected : String
reconnected = "reconnected"

abbrev pub connection_error : String
connection_error = "connection_error"

abbrev pub connection_timeout : String
connection_timeout = "connection_timeout"

abbrev pub kick_out : String
kick_out = "kick_out"

abbrev pub force_offline : String
force_offline = "force_offline"

abbrev pub open_window : String
open_window = "open_window"

abbrev pub close_window : String
close_window = "close_window"

abbrev pub b_status_reminder : String
b_status_reminder = "b_status_reminder"

abbrev pub group_changed : String
group_changed = "group_changed"

abbrev pub stream : String
stream = "stream"
