-- ===== src/Models/HubMessage.antt =====
-- models/message.go and models/delivery_guarantee.go: the message, and the guarantee that it is
-- delivered with. The fields are those that the modelled code reads; the texts that are only carried
-- (names, content, trace) and the mutex are left out.
pub mod Resolve
use go_wsc.Base.{
  Bool, true, false, String, List, [], ◌∷◌, Option, none, some, if◌then◌else◌, str_eq, string_eq,
}
use go_wsc.Base.Int.{ℤ, pos, leb_ℤ}
use go_wsc.Base.Map
use go_wsc.Base.Map.{Map}
use go_wsc.Models.MessageType.{MessageType}
use go_wsc.Models.MessageType.Content
use go_wsc.Models.MessageType.Signals
use go_wsc.Models.Classification.{MessageClassification, get_final_priority}
use go_wsc.Models.Enums.Priority
use go_wsc.Models.Enums.Priority.{Priority}

-- An int8; `other` holds the values that no constant names.
pub data DeliveryGuarantee : Type 0 where
  unset standard ephemeral guaranteed aggregatable : DeliveryGuarantee
  other : ℤ → DeliveryGuarantee

-- A value of the map `Data`: a classification (perhaps a nil pointer), or anything else.
pub data DataValue : Type 0 where
  classification : Option MessageClassification → DataValue
  opaque_value : DataValue

-- Where a message comes from.
abbrev pub MessageSource : Type 0
MessageSource = String

abbrev pub message_source_online : MessageSource
message_source_online = "online"

abbrev pub message_source_offline : MessageSource
message_source_offline = "offline"

pub record HubMessage : Type 0 where
  pub id : String
  pub message_type : MessageType
  pub receiver : String
  pub message_id : String
  pub data_map : Option (Map String DataValue)
  pub priority : Priority
  pub app_id : String
  pub namespace : String
  pub group_ids : List String
  pub guarantee : DeliveryGuarantee
  pub require_ack : Bool
  pub source : MessageSource

unfoldable pub is_express : DeliveryGuarantee → Bool
is_express ephemeral = true
is_express aggregatable = true
is_express _ = false

abbrev pub data_key_classification : String
data_key_classification = "classification"

abbrev pub classification_guaranteed_score : ℤ
classification_guaranteed_score = pos 90

abbrev pub guarantee_type_defaults : Map MessageType DeliveryGuarantee
guarantee_type_defaults =
    (Signals.kick_out, guaranteed)
    ∷ (Signals.force_offline, guaranteed)
    ∷ (Signals.terminate, guaranteed)
    ∷ (Signals.connection_rejected, guaranteed)
    ∷ (Signals.connection_error, guaranteed)
    ∷ (Signals.connection_timeout, guaranteed)
    ∷ (Content.ack, guaranteed)
    ∷ (Content.recall, guaranteed)
    ∷ (Content.payment, guaranteed)
    ∷ (Content.order, guaranteed)
    ∷ (Content.alert, guaranteed)
    ∷ (Content.typing, ephemeral)
    ∷ (Content.read, ephemeral)
    ∷ (Content.delivered, ephemeral)
    ∷ (Content.reaction, ephemeral)
    ∷ (Signals.user_status_changed, ephemeral)
    ∷ (Content.heartbeat, ephemeral)
    ∷ (Signals.stream, aggregatable)
    ∷ []

unfoldable pub guarantee_for_type : MessageType → Option DeliveryGuarantee
unfolding Map.lookup
guarantee_for_type mt = Map.lookup mt guarantee_type_defaults

unfoldable pub with_guarantee : DeliveryGuarantee → HubMessage → HubMessage
with_guarantee g m = record m { guarantee = g }

-- Whether the entry of `Data` is a classification whose score demands delivery.
unfoldable pub classified_guaranteed : Option DataValue → Bool
unfolding get_final_priority
classified_guaranteed (some (classification (some c))) =
    leb_ℤ classification_guaranteed_score (get_final_priority c)
classified_guaranteed _ = false

-- The branches of ResolveGuarantee below the explicit level and the table.
unfoldable pub derived_guarantee : HubMessage → DeliveryGuarantee
unfolding classified_guaranteed Map.lookup
derived_guarantee m =
    let entry : Option DataValue = elim m.data_map [
      | none ↦ none
      | some d ↦ Map.lookup data_key_classification d
    ] in
    if classified_guaranteed entry
    then guaranteed
    else if str_eq m.priority Priority.critical
    then guaranteed
    else standard

abbrev or_derived : HubMessage → Option DeliveryGuarantee → DeliveryGuarantee
or_derived m (some g) = g
or_derived m none = derived_guarantee m

abbrev or_inferred : HubMessage → DeliveryGuarantee → DeliveryGuarantee
or_inferred m unset = or_derived m (guarantee_for_type m.message_type)
or_inferred m g = g

unfoldable pub resolve_guarantee : HubMessage → DeliveryGuarantee
unfolding guarantee_for_type derived_guarantee
resolve_guarantee m = or_inferred m m.guarantee
