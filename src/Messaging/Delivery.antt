-- ===== src/Messaging/Delivery.antt =====
-- messaging/delivery_fallback.go, messaging/record_writer.go and models/client.go, TrySendSSE: what becomes of a
-- message that a connection does not take. The hub's counters, gate, coalescer and offline store are
-- passed along as a `Host`; what is handed to another goroutine (a status, a message for the offline
-- store, the statistics of a receiver) is a list of it, the newest last. A random number, which names
-- the cell of a hot counter, is an argument.
pub mod Sends
pub mod FanOut
pub mod Accounted
pub mod Funnel
pub mod Settled
pub mod Consistent
use go_wsc.Base.{
  ℕ, zero, suc, ◌+◌, ◌-◌, ◌*◌, ◌/◌, ◌%◌, ◌^◌, ◌≤◌, ◌<◌, String, ◌≡◌, refl, sym, ap, ap₂, ◌∙◌, ◌≢◌,
  ◌↔◌, ◌⊎◌, inl, inr, Bool, true, false, not, ◌&&◌, ◌||◌, Option, none, some, List, [], ◌∷◌, ◌++◌,
  map, ◌>>=◌, arith, eq_iff, ltb, leb, eqb, str_eq, if◌then◌else◌, ltb→lt, lt→ltb, leb→le, eqb_iff,
  Bool-cases, Option-cases, Eq, nat_eq, string_eq, pair_eq, ◌==◌, agrees_refl, length,
  length-append, length-set, length-replicate, get_or, get_or-replicate, get_or-set_self,
  get_or-set_ne, set, replicate, All, All-get_or, All-set, All-replicate, total-set, total,
  total-append, one_of, every, one_of-every,
}
use go_wsc.Base.Int.{
  ℤ, pos, negsuc, pos_part, neg_part, ◌+ℤ◌, ◌-ℤ◌, ◌*ℤ◌, ◌≤ℤ◌, ◌<ℤ◌, ltb_ℤ, leb_ℤ, eqb_ℤ, int64,
  int32, +ℤ_parts, -ℤ_parts, eq_of_parts, int_laws, +ℤ-pos, -ℤ-pos, int64-pos,
}
use go_wsc.Models.HubMessage.{
  DeliveryGuarantee, ephemeral, HubMessage, MessageSource, message_source_offline,
}
use go_wsc.Models.Client.{
  Chan, Client, Sent, sent_now, chan_full, chan_panic, send_on, mark_closed, try_send,
}
use go_wsc.Overload.Admission.{AdmissionGate, on_delivered}
use go_wsc.Overload.Coalescer.{Coalescer}
use go_wsc.Overload.Metrics.{
  OverloadMetrics, record_realtime, record_offline_fallback, record_ephemeral_drop,
  record_unrecoverable,
}

pub data FallbackAction : Type 0 where
  fallback_none fallback_offline fallback_ephemeral_drop : FallbackAction

abbrev pub MessageSendStatus : Type 0
MessageSendStatus = String

abbrev pub message_send_status_success : MessageSendStatus
message_send_status_success = "success"

abbrev pub message_send_status_failed : MessageSendStatus
message_send_status_failed = "failed"

abbrev pub FailureReason : Type 0
FailureReason = String

abbrev pub failure_reason_queue_full : FailureReason
failure_reason_queue_full = "queue_full"

abbrev pub failure_reason_unknown : FailureReason
failure_reason_unknown = "unknown"

-- What `updateMessageStatusAsync` is called with, less the text of the error.
pub record StatusUpdate : Type 0 where
  pub message_id : String
  pub receiver : String
  pub status : MessageSendStatus
  pub reason : FailureReason

module _ {ℓ} where
  -- A connection, with its channel for messages when it is an SSE one.
  pub record Recipient (D : Type ℓ) : Type ℓ where
    pub id : String
    pub user_id : String
    pub user_type : String
    pub is_sse : Bool
    pub client : Client D
    pub sse_chan : Option (Chan HubMessage)
    pub last_seen : ℤ

  pub record Host (D : Type ℓ) : Type ℓ where
    pub metrics : OverloadMetrics
    pub gate : Option AdmissionGate
    pub coalescer : Option Coalescer
    pub pending_counter : ℤ
    pub offline_handler : Bool
    pub offline : List (HubMessage)
    pub statuses : List StatusUpdate
    pub tracked : List (String × String × D)

unfoldable pub is_ephemeral : DeliveryGuarantee → Bool
is_ephemeral ephemeral = true
is_ephemeral _ = false

-- The copy that is stored, which has a receiver.
unfoldable pub offline_copy : String → HubMessage → HubMessage
offline_copy user_id msg = if str_eq msg.receiver "" then record msg { receiver = user_id } else msg

module _ {ℓ} {D : Type ℓ} where
  unfoldable pub update_metrics : (OverloadMetrics → OverloadMetrics) → Host D → Host D
  update_metrics f h = record h { metrics = f h.metrics }

  unfoldable pub admission_on_delivered : Host D → Host D
  unfolding on_delivered
  admission_on_delivered h = elim h.gate [
    | none ↦ h
    | some gate ↦ record h { gate = some (on_delivered gate) }
  ]

  unfoldable pub store_offline_on_delivery_failure : HubMessage → Host D → Host D
  store_offline_on_delivery_failure msg h =
      if not h.offline_handler || str_eq msg.receiver ""
      then h
      else if str_eq msg.source message_source_offline
      then h
      else record h { offline = h.offline ++ msg ∷ [] }

  -- The user whom the message is for.
  unfoldable pub fallback_user : String → Option (Recipient D) → String
  fallback_user target none = target
  fallback_user target (some rc) = if str_eq target "" then rc.user_id else target

  unfoldable pub fall_back :
      ℕ → HubMessage → String → DeliveryGuarantee → Host D → Host D × FallbackAction
  unfolding update_metrics is_ephemeral offline_copy store_offline_on_delivery_failure
  fall_back random msg user_id g h =
      if is_ephemeral g
      then (update_metrics (record_ephemeral_drop random) h, fallback_ephemeral_drop)
      else if str_eq user_id "" || not h.offline_handler
      then (update_metrics (record_unrecoverable random g) h, fallback_none)
      else (
        update_metrics (record_offline_fallback random g)
            (store_offline_on_delivery_failure (offline_copy user_id msg) h),
        fallback_offline,
      )

  unfoldable pub route_delivery_fallback :
      ℕ
      → Option HubMessage
      → Option (Recipient D)
      → String
      → DeliveryGuarantee
      → Host D
      → Host D × FallbackAction
  unfolding fallback_user fall_back
  route_delivery_fallback random none rc target g h = (h, fallback_none)
  route_delivery_fallback random (some msg) rc target g h =
      fall_back random msg (fallback_user target rc) g h

  -- A connection with the client and the counter that a call on them leaves.
  unfoldable pub with_client :
      (Client D × ℤ) × Bool → Host D → Recipient D → (Host D × Recipient D) × Bool
  with_client ((c, counter), sent) h rc =
      ((record h { pending_counter = counter }, record rc { client = c }), sent)

  unfoldable pub try_send_to : D → Host D → Recipient D → (Host D × Recipient D) × Bool
  unfolding with_client try_send
  try_send_to frame h rc = with_client (try_send frame (rc.client, h.pending_counter)) h rc

  settle_sse : Chan HubMessage × Sent → Host D → Recipient D → (Host D × Recipient D) × Bool
  unfolding with_client mark_closed
  settle_sse (ch, sent_now) h rc = ((h, record rc { sse_chan = some ch }), true)
  settle_sse (ch, chan_full) h rc = ((h, rc), false)
  settle_sse (ch, chan_panic) h rc =
      with_client (mark_closed (rc.client, h.pending_counter), false) h rc

  unfoldable pub try_send_sse : HubMessage → Host D → Recipient D → (Host D × Recipient D) × Bool
  unfolding settle_sse send_on
  try_send_sse msg h rc = elim rc.sse_chan [
    | none ↦ ((h, rc), false)
    | some ch ↦ if rc.client.closed then ((h, rc), false) else settle_sse (send_on msg ch) h rc
  ]

  unfoldable pub record_delivery : ℕ → Option HubMessage → DeliveryGuarantee → Host D → Host D
  unfolding update_metrics
  record_delivery random none g h = h
  record_delivery random (some msg) g h = update_metrics (record_realtime random g) h

  -- After the send.
  unfoldable pub finish_send :
      ℕ
      → Option HubMessage
      → DeliveryGuarantee
      → (Host D × Recipient D) × Bool
      → (Host D × Recipient D) × Bool
  unfolding record_delivery admission_on_delivered route_delivery_fallback
  finish_send random msg g ((h, rc), true) =
      ((admission_on_delivered (record_delivery random msg g h), rc), true)
  finish_send random msg g ((h, rc), false) =
      (((route_delivery_fallback random msg (some rc) "" g h).0, rc), false)

  unfoldable pub try_send_with_fallback :
      ℕ
      → D
      → Option HubMessage
      → DeliveryGuarantee
      → Host D
      → Option (Recipient D)
      → (Host D × Option (Recipient D)) × Bool
  unfolding try_send_to finish_send
  try_send_with_fallback random frame msg g h none = ((h, none), false)
  try_send_with_fallback random frame msg g h (some rc) =
      let ((h', rc'), sent) = finish_send random msg g (try_send_to frame h rc) in
      ((h', some rc'), sent)
