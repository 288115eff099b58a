-- ===== src/Models/MessageType.antt =====
-- models/message_type.go: the type of a message and the tests on it. A `switch` whose cases return
-- alike is a search of the list of those cases. The constants stand in the two children.
pub mod Content
pub mod Signals
pub mod Recorded
use go_wsc.Base.{
  Bool, true, false, ◌||◌, String, List, [], ◌∷◌, one_of, string_eq, if◌then◌else◌, str_eq,
}

abbrev pub MessageType : Type 0
MessageType = String

abbrev is_valid_cases : List MessageType
is_valid_cases =
    Content.text ∷ Content.image ∷ Content.file ∷ Content.audio ∷ Content.video ∷ Content.system
    ∷ Content.notice ∷ Content.event ∷ Content.ack ∷ Content.location ∷ Content.card ∷ Content.emoji
    ∷ Content.sticker ∷ Content.link ∷ Content.quote ∷ Content.forward ∷ Content.command
    ∷ Content.markdown ∷ Content.rich_text ∷ Content.code ∷ Content.json ∷ Content.xml
    ∷ Content.binary ∷ Content.voice ∷ Content.gif ∷ Content.document ∷ Content.spreadsheet
    ∷ Content.presentation ∷ Content.contact ∷ Content.calendar ∷ Content.task ∷ Content.poll
    ∷ Content.form ∷ Content.payment ∷ Content.order ∷ Content.product ∷ Content.invite
    ∷ Content.announcement ∷ Content.alert ∷ Content.error ∷ Content.info ∷ Content.success
    ∷ Content.warning ∷ Content.heartbeat ∷ Content.ping ∷ Content.pong ∷ Content.typing
    ∷ Content.read ∷ Content.delivered ∷ Content.recall ∷ Content.edit ∷ Content.reaction
    ∷ Content.thread ∷ Content.reply ∷ Content.mention ∷ Content.custom ∷ Signals.ticket_created
    ∷ Signals.ticket_assigned ∷ Signals.ticket_closed ∷ Signals.ticket_timeout_closed
    ∷ Signals.ticket_transfer ∷ Signals.ticket_active ∷ Signals.test ∷ Signals.welcome
    ∷ Signals.terminate ∷ Signals.transferred ∷ Signals.session_created ∷ Signals.session_closed
    ∷ Signals.session_queued ∷ Signals.session_timeout ∷ Signals.session_paused
    ∷ Signals.session_resumed ∷ Signals.session_transferred ∷ Signals.session_member_joined
    ∷ Signals.session_member_left ∷ Signals.session_status_changed ∷ Signals.check_user_status
    ∷ Signals.user_status_response ∷ Signals.get_online_users ∷ Signals.online_users_list
    ∷ Signals.get_user_info ∷ Signals.user_info_response ∷ Signals.system_query
    ∷ Signals.system_response ∷ Signals.user_joined ∷ Signals.user_left
    ∷ Signals.user_status_changed ∷ Signals.server_status ∷ Signals.server_stats
    ∷ Signals.client_config ∷ Signals.config_update ∷ Signals.health_check ∷ Signals.health_response
    ∷ Signals.connected ∷ Signals.client_registered ∷ Signals.connection_rejected
    ∷ Signals.disconnected ∷ Signals.reconnected ∷ Signals.connection_error
    ∷ Signals.connection_timeout ∷ Signals.kick_out ∷ Signals.force_offline ∷ Signals.close_window
    ∷ Signals.open_window ∷ Signals.b_status_reminder ∷ []

unfoldable pub is_valid : MessageType → Bool
is_valid t = one_of t is_valid_cases

abbrev is_media_type_cases : List MessageType
is_media_type_cases =
    Content.image ∷ Content.audio ∷ Content.video ∷ Content.file ∷ Content.voice ∷ Content.gif
    ∷ Content.document ∷ Content.spreadsheet ∷ Content.presentation ∷ []

unfoldable pub is_media_type : MessageType → Bool
is_media_type t = one_of t is_media_type_cases

abbrev is_text_type_cases : List MessageType
is_text_type_cases = Content.text ∷ Content.markdown ∷ Content.rich_text ∷ Content.code ∷ []

unfoldable pub is_text_type : MessageType → Bool
is_text_type t = one_of t is_text_type_cases

abbrev is_system_type_cases : List MessageType
is_system_type_cases =
    Content.system ∷ Content.notice ∷ Content.event ∷ Content.announcement ∷ Content.alert
    ∷ Content.error ∷ Content.info ∷ Content.success ∷ Content.warning ∷ Content.heartbeat
    ∷ Content.ping ∷ Content.pong ∷ Signals.b_status_reminder ∷ []

unfoldable pub is_system_type : MessageType → Bool
is_system_type t = one_of t is_system_type_cases

abbrev is_interactive_type_cases : List MessageType
is_interactive_type_cases =
    Content.card ∷ Content.link ∷ Content.quote ∷ Content.command ∷ Content.poll ∷ Content.form
    ∷ Content.task ∷ Content.invite ∷ []

unfoldable pub is_interactive_type : MessageType → Bool
is_interactive_type t = one_of t is_interactive_type_cases

abbrev is_status_type_cases : List MessageType
is_status_type_cases =
    Content.typing ∷ Content.read ∷ Content.delivered ∷ Content.ack ∷ Content.reaction
    ∷ Content.edit ∷ Content.recall ∷ []

unfoldable pub is_status_type : MessageType → Bool
is_status_type t = one_of t is_status_type_cases

abbrev is_heartbeat_type_cases : List MessageType
is_heartbeat_type_cases = Content.ping ∷ Content.pong ∷ Content.heartbeat ∷ []

unfoldable pub is_heartbeat_type : MessageType → Bool
is_heartbeat_type t = one_of t is_heartbeat_type_cases

abbrev is_session_type_cases : List MessageType
is_session_type_cases =
    Signals.session_created ∷ Signals.session_closed ∷ Signals.session_queued
    ∷ Signals.session_timeout ∷ Signals.session_paused ∷ Signals.session_resumed
    ∷ Signals.session_transferred ∷ Signals.session_member_joined ∷ Signals.session_member_left
    ∷ Signals.session_status_changed ∷ []

unfoldable pub is_session_type : MessageType → Bool
is_session_type t = one_of t is_session_type_cases

abbrev is_connection_type_cases : List MessageType
is_connection_type_cases =
    Signals.connected ∷ Signals.client_registered ∷ Signals.connection_rejected
    ∷ Signals.disconnected ∷ Signals.reconnected ∷ Signals.connection_error
    ∷ Signals.connection_timeout ∷ Signals.kick_out ∷ Signals.force_offline ∷ []

unfoldable pub is_connection_type : MessageType → Bool
is_connection_type t = one_of t is_connection_type_cases

abbrev is_business_type_cases : List MessageType
is_business_type_cases =
    Content.payment ∷ Content.order ∷ Content.product ∷ Signals.ticket_created
    ∷ Signals.ticket_assigned ∷ Signals.ticket_closed ∷ Signals.ticket_timeout_closed
    ∷ Signals.ticket_transfer ∷ Signals.ticket_active ∷ Signals.b_status_reminder ∷ []

unfoldable pub is_business_type : MessageType → Bool
is_business_type t = one_of t is_business_type_cases

abbrev is_window_type_cases : List MessageType
is_window_type_cases = Signals.open_window ∷ Signals.close_window ∷ []

unfoldable pub is_window_type : MessageType → Bool
is_window_type t = one_of t is_window_type_cases

abbrev is_user_type_cases : List MessageType
is_user_type_cases =
    Signals.user_joined ∷ Signals.user_left ∷ Signals.user_status_changed
    ∷ Signals.check_user_status ∷ Signals.user_status_response ∷ Signals.get_online_users
    ∷ Signals.online_users_list ∷ Signals.get_user_info ∷ Signals.user_info_response ∷ []

unfoldable pub is_user_type : MessageType → Bool
is_user_type t = one_of t is_user_type_cases

abbrev is_config_type_cases : List MessageType
is_config_type_cases = Signals.client_config ∷ Signals.config_update ∷ []

unfoldable pub is_config_type : MessageType → Bool
is_config_type t = one_of t is_config_type_cases

abbrev is_health_type_cases : List MessageType
is_health_type_cases = Signals.health_check ∷ Signals.health_response ∷ []

unfoldable pub is_health_type : MessageType → Bool
is_health_type t = one_of t is_health_type_cases

abbrev is_server_type_cases : List MessageType
is_server_type_cases = Signals.server_status ∷ Signals.server_stats ∷ []

unfoldable pub is_server_type : MessageType → Bool
is_server_type t = one_of t is_server_type_cases

abbrev is_recall_type_cases : List MessageType
is_recall_type_cases = Content.recall ∷ Content.edit ∷ Content.reaction ∷ []

unfoldable pub is_recall_type : MessageType → Bool
is_recall_type t = one_of t is_recall_type_cases

abbrev is_thread_type_cases : List MessageType
is_thread_type_cases = Content.thread ∷ Content.reply ∷ []

unfoldable pub is_thread_type : MessageType → Bool
is_thread_type t = one_of t is_thread_type_cases

abbrev is_custom_type_cases : List MessageType
is_custom_type_cases = Content.custom ∷ Content.unknown ∷ []

unfoldable pub is_custom_type : MessageType → Bool
is_custom_type t = one_of t is_custom_type_cases

unfoldable pub should_skip_database_record : MessageType → Bool
unfolding is_status_type is_connection_type is_system_type
should_skip_database_record t = is_status_type t || is_connection_type t || is_system_type t

unfoldable pub is_forwardable_type : MessageType → Bool
unfolding is_window_type is_status_type
is_forwardable_type t = if is_window_type t then true else if is_status_type t then true else false

unfoldable pub get_category : MessageType → String
unfolding is_media_type is_text_type is_system_type is_interactive_type is_recall_type
    is_status_type is_business_type is_session_type is_window_type is_user_type is_config_type
    is_health_type is_server_type is_thread_type is_custom_type
get_category t =
    if is_media_type t
    then "media"
    else if is_text_type t
    then "text"
    else if is_system_type t
    then "system"
    else if is_interactive_type t
    then "interactive"
    else if is_recall_type t
    then "recall"
    else if is_status_type t
    then "status"
    else if is_business_type t
    then "business"
    else if is_session_type t
    then "session"
    else if is_window_type t
    then "window"
    else if is_user_type t
    then "user"
    else if is_config_type t
    then "config"
    else if is_health_type t
    then "health"
    else if is_server_type t
    then "server"
    else if is_thread_type t
    then "thread"
    else if is_custom_type t
    then "custom"
    else "other"
