-- ===== src/Models/MessagePriority.antt =====
-- models/message_type.go: the default priority of a message type, the list of all types and the
-- statistics over it. A priority is Go's `int`; the values outside 1..5 are priorities too.
pub mod Counts
use go_wsc.Base.{ℕ, ◌+◌, Bool, String, List, [], ◌∷◌, one_of, string_eq, if◌then◌else◌, str_eq}
use go_wsc.Base.Int.{ℤ, pos, ltb_ℤ, eqb_ℤ}
use go_wsc.Models.MessageType.{MessageType, get_category}
use go_wsc.Models.MessageType.Content
use go_wsc.Models.MessageType.Signals

abbrev pub MessagePriority : Type 0
MessagePriority = ℤ

abbrev pub low : MessagePriority
low = pos 1

abbrev pub normal : MessagePriority
normal = pos 2

abbrev pub high : MessagePriority
high = pos 3

abbrev pub urgent : MessagePriority
urgent = pos 4

abbrev pub critical : MessagePriority
critical = pos 5

abbrev critical_cases : List MessageType
critical_cases = Content.error ∷ Content.alert ∷ []

abbrev urgent_cases : List MessageType
urgent_cases = Content.system ∷ Content.announcement ∷ Content.warning ∷ []

abbrev high_cases : List MessageType
high_cases =
    Content.notice ∷ Content.event ∷ Content.success ∷ Content.payment ∷ Content.order
    ∷ Content.invite ∷ Content.task ∷ Content.recall ∷ Signals.ticket_assigned
    ∷ Signals.ticket_created ∷ Signals.ticket_timeout_closed ∷ Signals.ticket_closed
    ∷ Signals.ticket_transfer ∷ Signals.ticket_active ∷ Signals.test ∷ Signals.welcome
    ∷ Signals.terminate ∷ Signals.transferred ∷ Signals.session_created ∷ Signals.session_closed
    ∷ Signals.session_queued ∷ Signals.session_timeout ∷ Signals.session_paused
    ∷ Signals.session_resumed ∷ Signals.session_transferred ∷ Signals.session_member_joined
    ∷ Signals.session_member_left ∷ Signals.session_status_changed ∷ []

abbrev normal_cases : List MessageType
normal_cases =
    Content.text ∷ Content.image ∷ Content.audio ∷ Content.video ∷ Content.file ∷ Content.card
    ∷ Content.link ∷ Content.quote ∷ Content.forward ∷ Content.markdown ∷ Content.rich_text
    ∷ Content.code ∷ Content.voice ∷ Content.location ∷ Content.contact ∷ Content.document
    ∷ Content.calendar ∷ Content.poll ∷ Content.form ∷ Content.product ∷ Content.emoji
    ∷ Content.sticker ∷ Content.gif ∷ Content.reply ∷ Content.thread ∷ Content.mention
    ∷ Signals.open_window ∷ Signals.close_window ∷ []

abbrev low_cases : List MessageType
low_cases =
    Content.typing ∷ Content.read ∷ Content.delivered ∷ Content.ack ∷ Content.heartbeat
    ∷ Content.ping ∷ Content.pong ∷ Content.info ∷ Content.edit ∷ Content.reaction ∷ Content.json
    ∷ Content.xml ∷ Content.binary ∷ Content.spreadsheet ∷ Content.presentation ∷ Content.custom
    ∷ Content.command ∷ []

unfoldable pub get_default_priority : MessageType → MessagePriority
get_default_priority t =
    if one_of t critical_cases
    then critical
    else if one_of t urgent_cases
    then urgent
    else if one_of t high_cases
    then high
    else if one_of t normal_cases
    then normal
    else if one_of t low_cases
    then low
    else normal

abbrev pub get_all_message_types : List MessageType
get_all_message_types =
    Content.text ∷ Content.image ∷ Content.file ∷ Content.audio ∷ Content.video ∷ Content.system
    ∷ Content.notice ∷ Content.event ∷ Content.ack ∷ Content.location ∷ Content.card ∷ Content.emoji
    ∷ Content.sticker ∷ Content.link ∷ Content.quote ∷ Content.forward ∷ Content.command
    ∷ Content.markdown ∷ Content.rich_text ∷ Content.code ∷ Content.json ∷ Content.xml
    ∷ Content.binary ∷ Content.voice ∷ Content.gif ∷ Content.document ∷ Content.spreadsheet
    ∷ Content.presentation ∷ Content.contact ∷ Content.calendar ∷ Content.task ∷ Content.poll
    ∷ Content.form ∷ Content.payment ∷ Content.order ∷ Content.product ∷ Content.invite
    ∷ Content.announcement ∷ Content.alert ∷ Content.error ∷ Content.info ∷ Content.success
    ∷ Content.warning ∷ Content.heartbeat ∷ Content.ping ∷ Content.pong ∷ Content.typing
    ∷ Content.read ∷ Content.delivered ∷ Content.recall ∷ Content.edit ∷ Content.reaction
    ∷ Content.thread ∷ Content.reply ∷ Content.mention ∷ Content.custom ∷ Signals.ticket_assigned
    ∷ Signals.ticket_closed ∷ Signals.ticket_transfer ∷ Signals.ticket_active ∷ Signals.test
    ∷ Signals.welcome ∷ Signals.terminate ∷ Signals.transferred ∷ Signals.session_created
    ∷ Signals.session_closed ∷ Signals.session_queued ∷ Signals.session_timeout
    ∷ Signals.check_user_status ∷ Signals.user_status_response ∷ Signals.get_online_users
    ∷ Signals.online_users_list ∷ Signals.get_user_info ∷ Signals.user_info_response
    ∷ Signals.system_query ∷ Signals.system_response ∷ Signals.user_joined ∷ Signals.user_left
    ∷ Signals.user_status_changed ∷ Signals.server_status ∷ Signals.server_stats
    ∷ Signals.client_config ∷ Signals.config_update ∷ Signals.health_check ∷ Signals.health_response
    ∷ Signals.connected ∷ Signals.client_registered ∷ Signals.connection_rejected
    ∷ Signals.disconnected ∷ Signals.reconnected ∷ Signals.connection_error
    ∷ Signals.connection_timeout ∷ Signals.kick_out ∷ Signals.force_offline ∷ Signals.close_window
    ∷ Signals.open_window ∷ Signals.b_status_reminder ∷ []

unfoldable pub is_higher_than : MessagePriority → MessagePriority → Bool
is_higher_than p other = ltb_ℤ other p

-- The loop of the two selections, over the types that are left.
unfoldable pub select : (MessageType → Bool) → List MessageType → List MessageType
select p [] = []
select p (t ∷ ts) = if p t then t ∷ select p ts else select p ts

unfoldable pub get_message_types_by_category : String → List MessageType
unfolding select get_category
get_message_types_by_category c = select (λ t. str_eq (get_category t) c) get_all_message_types

unfoldable pub get_message_types_by_priority : MessagePriority → List MessageType
unfolding select
get_message_types_by_priority p =
    select (λ t. eqb_ℤ (get_default_priority t) p) get_all_message_types

pub record PriorityStats : Type 0 where
  pub critical_count : ℕ
  pub urgent_count : ℕ
  pub high_count : ℕ
  pub normal_count : ℕ
  pub low_count : ℕ
  pub total_count : ℕ

-- One round of the loop: the `switch`, then the total.
unfoldable pub count_priority : MessagePriority → PriorityStats → PriorityStats
count_priority p s =
    let t = record s { total_count = s.total_count + 1 } in
    if eqb_ℤ p critical
    then record t { critical_count = s.critical_count + 1 }
    else if eqb_ℤ p urgent
    then record t { urgent_count = s.urgent_count + 1 }
    else if eqb_ℤ p high
    then record t { high_count = s.high_count + 1 }
    else if eqb_ℤ p normal
    then record t { normal_count = s.normal_count + 1 }
    else if eqb_ℤ p low
    then record t { low_count = s.low_count + 1 }
    else t

unfoldable pub priority_stats_from : PriorityStats → List MessageType → PriorityStats
unfolding count_priority
priority_stats_from s [] = s
priority_stats_from s (t ∷ ts) = priority_stats_from (count_priority (get_default_priority t) s) ts

unfoldable pub get_priority_stats : PriorityStats
unfolding priority_stats_from
get_priority_stats =
    priority_stats_from
      (record {
        critical_count = 0;
        urgent_count = 0;
        high_count = 0;
        normal_count = 0;
        low_count = 0;
        total_count = 0;
      })
      get_all_message_types
