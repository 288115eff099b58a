-- ===== src/Connection/ControlLane/Reaches.antt =====
-- connection/control_lane.go, with models/delivery_guarantee.go and overload/admission.go: control messages
-- get through.
use go_wsc.Base.{
  ◌≡◌, refl, Bool, true, false, Option, none, some, arith, nat_eq, string_eq, pair_eq, every,
  one_of-every,
}
use go_wsc.Models.MessageType.{MessageType}
use go_wsc.Models.HubMessage.{
  HubMessage, DeliveryGuarantee, unset, standard, ephemeral, guaranteed, aggregatable, other,
  guarantee_for_type, resolve_guarantee,
}
use go_wsc.Overload.Admission.{AdmissionGate, verdict_admit, admit}
use go_wsc.Connection.ControlLane.{control_message_types, is_control_message}

abbrev is_guaranteed_default : Option DeliveryGuarantee → Bool
is_guaranteed_default none = false
is_guaranteed_default (some unset) = false
is_guaranteed_default (some standard) = false
is_guaranteed_default (some ephemeral) = false
is_guaranteed_default (some guaranteed) = true
is_guaranteed_default (some aggregatable) = false
is_guaranteed_default (some (other n)) = false

default_guaranteed :
    (o : Option DeliveryGuarantee) → is_guaranteed_default o ≡ true → o ≡ some guaranteed
default_guaranteed none h = absurd (ground (arith, h))
default_guaranteed (some unset) h = absurd (ground (arith, h))
default_guaranteed (some standard) h = absurd (ground (arith, h))
default_guaranteed (some ephemeral) h = absurd (ground (arith, h))
default_guaranteed (some guaranteed) h = refl
default_guaranteed (some aggregatable) h = absurd (ground (arith, h))
default_guaranteed (some (other n)) h = absurd (ground (arith, h))

all_guaranteed :
    every (λ t. is_guaranteed_default (guarantee_for_type t)) control_message_types ≡ true
unfolding guarantee_for_type
all_guaranteed = refl

control-guaranteed :
    (mt : MessageType) → is_control_message mt ≡ true → guarantee_for_type mt ≡ some guaranteed
unfolding is_control_message
control-guaranteed mt h = default_guaranteed (guarantee_for_type mt) (
    one_of-every (λ t. is_guaranteed_default (guarantee_for_type t)) mt control_message_types
      all_guaranteed h)

resolve-control :
    (msg : HubMessage)
    → is_control_message msg.message_type ≡ true
    → msg.guarantee ≡ unset
    → resolve_guarantee msg ≡ guaranteed
unfolding resolve_guarantee
resolve-control msg h g = rw (g, control-guaranteed msg.message_type h) refl

-- The admission gate admits every message of a control type that has no guarantee written, at any
-- level, broadcast or not.
pub admit-control :
    (gate : AdmissionGate) (msg : HubMessage) (is_broadcast : Bool)
    → is_control_message msg.message_type ≡ true
    → msg.guarantee ≡ unset
    → admit gate msg is_broadcast ≡ verdict_admit
unfolding admit
admit-control gate msg is_broadcast h g = rw (resolve-control msg h g) refl
