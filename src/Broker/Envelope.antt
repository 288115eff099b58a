-- ===== src/Broker/Envelope.antt =====
-- broker/envelope.go: the envelope of the message bus, its checks and its deduplication key. A nil
-- envelope or message is `none`. An error is named for what it says.
pub mod Keys
use go_wsc.Base.{
  ℕ, String, Bool, ◌&&◌, Option, none, some, ◌∷◌, ◌++◌, ltb, eqb, str_eq, if◌then◌else◌, nat_eq,
  string_eq, pair_eq, length,
}
use Prim.Native.Char.{nul}
use Prim.Native.String.{◌++◌ as ◌<>◌}
use go_wsc.Models.HubMessage.{HubMessage}
use go_wsc.Routing.{Context, new_route, with_app_id, with_namespace, with_group_ids, inject}

-- A uint8; `other` holds the values that no constant names.
pub data DeliverIntent : Type 0 where
  intent_unset intent_deliver intent_broadcast : DeliverIntent
  other : ℕ → DeliverIntent

pub record DeliverEnvelope : Type 0 where
  pub intent : DeliverIntent
  pub publisher : String
  pub exclude_sender : Bool
  pub hops : ℕ
  pub message : Option HubMessage

abbrev pub default_max_hops : ℕ
default_max_hops = 2

pub data EnvelopeError : Type 0 where
  nil_message message_id_empty publisher_empty app_id_empty hops_exceeded : EnvelopeError

-- The checks of a message in its envelope.
validate_message : DeliverEnvelope → HubMessage → Option EnvelopeError
validate_message env msg =
    if str_eq msg.message_id ""
    then some message_id_empty
    else if str_eq env.publisher ""
    then some publisher_empty
    else if str_eq msg.app_id ""
    then some app_id_empty
    else if ltb default_max_hops env.hops
    then some hops_exceeded
    else none

validate_fields : DeliverEnvelope → Option HubMessage → Option EnvelopeError
unfolding validate_message
validate_fields env none = some nil_message
validate_fields env (some msg) = validate_message env msg

unfoldable pub validate_envelope : Option DeliverEnvelope → Option EnvelopeError
unfolding validate_fields
validate_envelope none = some nil_message
validate_envelope (some env) = validate_fields env env.message

unfoldable pub restore_route_ctx : Context → HubMessage → Context
unfolding inject
restore_route_ctx ctx msg =
    inject
      (with_group_ids msg.group_ids
        (with_namespace msg.namespace (with_app_id msg.app_id new_route)))
      ctx

or_inferred : DeliverIntent → HubMessage → DeliverIntent
or_inferred intent_unset msg =
    if str_eq msg.receiver "" && eqb (length msg.group_ids) 0
    then intent_broadcast
    else intent_deliver
or_inferred intent msg = intent

-- The intent of an envelope with this message.
unfoldable pub resolve_intent : DeliverEnvelope → HubMessage → DeliverIntent
unfolding or_inferred
resolve_intent env msg = or_inferred env.intent msg

-- The key of a message: its id, and the receiver behind a zero byte.
unfoldable pub format_dedup_key : HubMessage → String
format_dedup_key msg =
    if str_eq msg.receiver ""
    then msg.message_id
    else msg.message_id <> (String.◌∷◌ nul msg.receiver)
