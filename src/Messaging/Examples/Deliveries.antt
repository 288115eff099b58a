-- ===== src/Messaging/Examples/Deliveries.antt =====
-- The theorems on the delivery to connections at concrete inputs.
use go_wsc.Base.{
  ℕ, ◌^◌, ◌<◌, String, ◌≡◌, refl, ◌↔◌, inl, true, false, Option, none, some, List, [], ◌∷◌, arith,
  str_eq, if◌then◌else◌, nat_eq, string_eq, pair_eq,
}
use go_wsc.Base.Int.{pos}
use go_wsc.Models.HubMessage.{standard, HubMessage, resolve_guarantee}
use go_wsc.Models.Samples.{chat}
use go_wsc.Overload.Metrics.{zero_metrics, delivery_funnel_consistent}
use go_wsc.Messaging.Delivery.{Recipient, Host, try_send_with_fallback}
use go_wsc.Messaging.Delivery.FanOut.{broadcast_to, is_passed}
use go_wsc.Messaging.Delivery.Sends.{admit_message, send_to_client_serialized}
use go_wsc.Messaging.Delivery.Accounted.{IsAccounted, try_send_with_fallback-IsAccounted}
use go_wsc.Messaging.Delivery.Funnel.{reached}
use go_wsc.Messaging.Delivery.Consistent.{
  broadcast_to-consistent, send_to_client_serialized-consistent,
}

abbrev message : HubMessage
message = record chat { guarantee = standard }

-- A connection that takes one frame more, and one that takes none.
abbrev connection : ℕ → Recipient ℕ
connection capacity = record {
  id = "c1";
  user_id = "alice";
  user_type = "customer";
  is_sse = false;
  client = record {
    pending_writes = pos 0;
    bound = true;
    closed = false;
    send_chan = some (record { queue = []; capacity = capacity; shut = false });
    ctrl_ch = none;
    backlog_ratio = pos 0;
  };
  sse_chan = none;
  last_seen = pos 0;
}

abbrev node : Host ℕ
node = record {
  metrics = zero_metrics;
  gate = none;
  coalescer = none;
  pending_counter = pos 0;
  offline_handler = true;
  offline = [];
  statuses = [];
  tracked = [];
}

is_standard : resolve_guarantee message ≡ standard
unfolding resolve_guarantee
is_standard = refl

abbrev if_not_empty : String → String → String
if_not_empty a b = if str_eq a "" then b else a

abbrev marshal : HubMessage → Option ℕ
marshal msg = some 7

try_send_with_fallback-IsAccounted_example : IsAccounted 5 message standard node (connection 0) (
  (try_send_with_fallback 5 7 (some message) standard node (some (connection 0))).0.0,
  (try_send_with_fallback 5 7 (some message) standard node (some (connection 0))).1,
)
try_send_with_fallback-IsAccounted_example =
    try_send_with_fallback-IsAccounted 5 7 message standard node (connection 0)

abbrev recipients : List (ℕ × Recipient ℕ)
recipients = (3, connection 0) ∷ (4, connection 1) ∷ []

few : reached recipients < 2 ^ 59
unfolding is_passed
few = omega arith

broadcast_to-consistent_example :
    (delivery_funnel_consistent
        (broadcast_to 7 message
          (resolve_guarantee message)
          recipients
          (admit_message 1 message true node).0).host.metrics).0
      ≡ true
    ↔ reached recipients ≡ 1
broadcast_to-consistent_example =
    broadcast_to-consistent 1 7 message recipients node (inl is_standard) refl few

send_to_client_serialized-consistent_example :
    (delivery_funnel_consistent
        (send_to_client_serialized if_not_empty marshal
          (1, 2)
          3
          none
          message
          (pos 9)
          (node, connection 0)).0.0.metrics).0
      ≡ true
    ↔ (send_to_client_serialized if_not_empty marshal
        (1, 2)
        3
        none
        message
        (pos 9)
        (node, connection 0)).1
      ≡ true
send_to_client_serialized-consistent_example =
    send_to_client_serialized-consistent if_not_empty marshal (1, 2) 3 none message (pos 9) node
      (connection 0) (inl is_standard) refl refl refl
