-- ===== src/Models/Samples.antt =====
-- Messages that the examples use.
use go_wsc.Base.{false, none, some, [], ◌∷◌, nat_eq, string_eq, pair_eq}
use go_wsc.Base.Int.{pos}
use go_wsc.Models.HubMessage.{HubMessage, unset, classification}
use go_wsc.Models.Classification.{MessageClassification}
use go_wsc.Models.MessageType.Content
use go_wsc.Models.Enums.Priority
use go_wsc.Models.Enums.VipLevel
use go_wsc.Models.Enums.UrgencyLevel
use go_wsc.Models.Enums.BusinessCategory

abbrev pub chat : HubMessage
chat = record {
  id = "m1";
  message_type = Content.text;
  receiver = "alice";
  message_id = "b1";
  data_map = none;
  priority = Priority.normal;
  app_id = "app";
  namespace = "";
  group_ids = [];
  guarantee = unset;
  require_ack = false;
  source = "online";
}

abbrev pub payment : HubMessage
payment = record chat { id = "m2"; message_id = "b2"; message_type = Content.payment }

abbrev pub typing : HubMessage
typing = record chat { id = "m3"; message_id = "b3"; message_type = Content.typing }

abbrev pub urgent_class : MessageClassification
urgent_class = record {
  message_type = Content.text;
  priority = pos 5;
  vip_level = VipLevel.v8;
  urgency_level = UrgencyLevel.high;
  business_category = BusinessCategory.security;
}

abbrev pub classified : HubMessage
classified = record chat {
  data_map = some (("classification", classification (some urgent_class)) ∷ []);
}
