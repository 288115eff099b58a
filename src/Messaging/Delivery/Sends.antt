-- ===== src/Messaging/Delivery/Sends.antt =====
-- messaging/client_delivery.go: a message for one connection. `mathx.IfNotEmpty`, of another package, and the
-- writing of a message as JSON are parameters; the first two random numbers of a call are its arguments.
-- The texts of errors and the log are left out.
use go_wsc.Base.{
  ℕ, String, Bool, true, false, not, ◌&&◌, Option, none, some, [], ◌∷◌, ◌++◌, if◌then◌else◌, nat_eq,
  string_eq, pair_eq,
}
use go_wsc.Base.Int.{ℤ}
use go_wsc.Models.HubMessage.{ephemeral, HubMessage, resolve_guarantee}
use go_wsc.Overload.Admission.{admit, AdmitVerdict, verdict_admit, verdict_delay, verdict_offline}
use go_wsc.Overload.Coalescer.{Coalescer, offer}
use go_wsc.Overload.Metrics.{
  record_admitted, record_realtime, record_ephemeral_drop, record_ephemeral_merged,
  record_admission_verdict,
}
use go_wsc.Messaging.Delivery.{
  message_send_status_success, message_send_status_failed, FailureReason, failure_reason_queue_full,
  failure_reason_unknown, Recipient, Host, is_ephemeral, update_metrics, admission_on_delivered,
  store_offline_on_delivery_failure, try_send_to, try_send_sse,
}

module _ {ℓ} {D : Type ℓ} where
  -- `AdmitMessage` of the hub.
  unfoldable pub admit_message : ℕ → HubMessage → Bool → Host D → Host D × AdmitVerdict
  unfolding update_metrics
  admit_message random msg is_broadcast h =
      let h' = update_metrics (record_admitted random (resolve_guarantee msg)) h in
      elim h.gate [
        | none ↦ (h', verdict_admit)
        | some gate ↦
            let verdict = admit gate msg is_broadcast in
            (update_metrics (record_admission_verdict verdict) h', verdict)
      ]

module _ (if_not_empty : String → String → String) where
  module _ {ℓ} {D : Type ℓ} where
    -- The report of a failure, and of a success.
    unfoldable pub report_failed : Bool → FailureReason → HubMessage → Host D → Host D
    report_failed report reason msg h = if not report then h else record h {
      statuses =
          h.statuses
          ++ (record {
            message_id = if_not_empty msg.message_id msg.id;
            receiver = msg.receiver;
            status = message_send_status_failed;
            reason = reason;
          })
            ∷ [];
    }

    unfoldable pub report_success : Bool → HubMessage → Host D → Host D
    report_success report msg h = if not report then h else record h {
      statuses =
          h.statuses
          ++ (record {
            message_id = if_not_empty msg.message_id msg.id;
            receiver = msg.receiver;
            status = message_send_status_success;
            reason = "";
          })
            ∷ [];
    }

    -- After the offer to the coalescer.
    unfoldable pub settle_offer :
        ℕ → Bool → HubMessage → Host D → Coalescer × Bool × Bool → Host D × Bool
    unfolding update_metrics report_failed
    settle_offer random report msg h (co, true, true) =
        (update_metrics (record_ephemeral_merged random) (record h { coalescer = some co }), true)
    settle_offer random report msg h (co, true, false) = (record h { coalescer = some co }, true)
    settle_offer random report msg h (co, false, merged) = (
      report_failed report failure_reason_queue_full msg
          (update_metrics (record_ephemeral_drop random) (record h { coalescer = some co })),
      false,
    )

    unfoldable pub settle_sse_send :
        Bool → HubMessage → ℤ → (Host D × Recipient D) × Bool → (Host D × Recipient D) × Bool
    unfolding report_failed report_success
    settle_sse_send report msg now ((h, rc), true) =
        ((report_success report msg h, record rc { last_seen = now }), true)
    settle_sse_send report msg now ((h, rc), false) =
        ((report_failed report failure_reason_queue_full msg h, rc), false)

    unfoldable pub settle_send :
        ℕ → Bool → HubMessage → D → (Host D × Recipient D) × Bool → (Host D × Recipient D) × Bool
    unfolding report_failed report_success update_metrics admission_on_delivered
    settle_send random report msg frame ((h, rc), true) =
        let h' = report_success report msg h in
        let h'' = update_metrics (record_realtime random (resolve_guarantee msg)) h' in
        let done = admission_on_delivered h'' in
        ((record done { tracked = done.tracked ++ (rc.id, rc.user_type, frame) ∷ [] }, rc), true)
    settle_send random report msg frame ((h, rc), false) =
        ((report_failed report failure_reason_queue_full msg h, rc), false)

    module _ (marshal : HubMessage → Option D) where
      -- The frame is at hand, or the message is written now.
      unfoldable pub frame_of : Option D → HubMessage → Option D
      frame_of (some frame) msg = some frame
      frame_of none msg = marshal msg

      unfoldable pub send_frame :
          ℕ → Bool → HubMessage → Option D → Host D × Recipient D → (Host D × Recipient D) × Bool
      unfolding try_send_to settle_send report_failed
      send_frame random report msg none (h, rc) =
          ((report_failed report failure_reason_unknown msg h, rc), false)
      send_frame random report msg (some frame) (h, rc) =
          settle_send random report msg frame (try_send_to frame h rc)

      -- After the verdict of the gate.
      unfoldable pub send_admitted :
          ℕ
          → Option D
          → Bool
          → HubMessage
          → ℤ
          → Recipient D
          → Host D × AdmitVerdict
          → (Host D × Recipient D) × Bool
      unfolding settle_sse_send try_send_sse send_frame frame_of report_failed
      send_admitted random pre report msg now rc (h, verdict_admit) =
          if rc.is_sse
          then settle_sse_send report msg now (try_send_sse msg h rc)
          else send_frame random report msg (frame_of pre msg) (h, rc)
      send_admitted random pre report msg now rc (h, verdict_delay) =
          ((report_failed report failure_reason_queue_full msg h, rc), false)
      send_admitted random pre report msg now rc (h, verdict_offline) =
          ((report_failed report failure_reason_queue_full msg h, rc), false)

      -- The way through the coalescer, or through the gate.
      unfoldable pub send_open :
          ℕ × ℕ
          → Option D
          → Bool
          → HubMessage
          → ℤ
          → Option Coalescer
          → Host D × Recipient D
          → (Host D × Recipient D) × Bool
      unfolding send_admitted admit_message
      send_open (random, random') pre report msg now none (h, rc) =
          send_admitted random' pre report msg now rc (admit_message random msg false h)
      send_open (random, random') pre report msg now (some co) (h, rc) =
          if is_ephemeral (resolve_guarantee msg) && not rc.is_sse
          then (let (h', accepted) =
                settle_offer random' report msg
                  (update_metrics (record_admitted random ephemeral) h)
                  (offer co (rc.user_id, msg.message_type) (some msg)) in
              ((h', rc), accepted))
          else send_admitted random' pre report msg now rc (admit_message random msg false h)

      unfoldable pub send_to_client_core :
          ℕ × ℕ
          → Option D
          → Bool
          → HubMessage
          → ℤ
          → Host D × Recipient D
          → (Host D × Recipient D) × Bool
      unfolding send_open
      send_to_client_core randoms pre report msg now (h, rc) =
          if rc.client.closed
          then ((h, rc), false)
          else send_open randoms pre report msg now h.coalescer (h, rc)

      unfoldable pub try_deliver_to_client :
          ℕ × ℕ → Option D → HubMessage → ℤ → Host D × Recipient D → (Host D × Recipient D) × Bool
      unfolding send_to_client_core
      try_deliver_to_client randoms pre msg now s = send_to_client_core randoms pre true msg now s

      unfoldable pub keep_undelivered :
          ℕ → HubMessage → (Host D × Recipient D) × Bool → (Host D × Recipient D) × Bool
      unfolding update_metrics is_ephemeral store_offline_on_delivery_failure
      keep_undelivered random msg ((h, rc), true) = ((h, rc), true)
      keep_undelivered random msg ((h, rc), false) =
          if is_ephemeral (resolve_guarantee msg)
          then ((update_metrics (record_ephemeral_drop random) h, rc), false)
          else ((store_offline_on_delivery_failure msg h, rc), false)

      -- The third random number is that of the drop.
      unfoldable pub send_to_client_serialized :
          (ℕ × ℕ)
          → ℕ
          → Option D
          → HubMessage
          → ℤ
          → Host D × Recipient D
          → (Host D × Recipient D) × Bool
      unfolding try_deliver_to_client keep_undelivered
      send_to_client_serialized randoms random pre msg now s =
          keep_undelivered random msg (try_deliver_to_client randoms pre msg now s)
