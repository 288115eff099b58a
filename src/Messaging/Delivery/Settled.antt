-- ===== src/Messaging/Delivery/Settled.antt =====
-- messaging/client_delivery.go: what a message for one WebSocket connection is counted as.
use go_wsc.Base.{
  ℕ, String, ◌≡◌, refl, sym, ap, ◌∙◌, Bool, true, false, Option, none, some, List, [], ◌∷◌, arith,
  if◌then◌else◌, nat_eq, string_eq, pair_eq,
}
use go_wsc.Base.Int.{ℤ}
use mathlib.Core.Path.{subst}
use go_wsc.Models.HubMessage.{HubMessage, resolve_guarantee}
use go_wsc.Overload.Admission.{AdmitVerdict, verdict_admit, verdict_delay, verdict_offline}
use go_wsc.Overload.Coalescer.{Coalescer}
use go_wsc.Overload.Metrics.{OverloadMetrics}
use go_wsc.Overload.Metrics.Recordings.{Recording, delivers, drops, record_of, run}
use go_wsc.Messaging.Delivery.{
  Recipient, Host, FailureReason, failure_reason_queue_full, failure_reason_unknown, is_ephemeral,
  try_send_sse, update_metrics, try_send_to,
}
use go_wsc.Messaging.Delivery.Sends.{
  admit_message, report_failed, report_success, settle_offer, settle_sse_send, settle_send,
  send_frame, frame_of, send_admitted, send_open, send_to_client_core, try_deliver_to_client,
  keep_undelivered, send_to_client_serialized,
}
use go_wsc.Messaging.Delivery.Accounted.{
  on_delivered-metrics, store_offline-metrics, try_send_to-metrics,
}
use go_wsc.Messaging.Delivery.Funnel.{LetsOut, no_recordings, one_more_out}

if_false {ℓ} : {A : Type ℓ} (b : Bool) (x y : A) → b ≡ false → (if b then x else y) ≡ y
if_false b x y e = rw e refl

-- How many are let out.
abbrev pub sent_count : Bool → ℕ
sent_count true = 1
sent_count false = 0

module _ {ℓ} {D : Type ℓ} (if_not_empty : String → String → String) where
  report_failed-metrics :
      (report : Bool) (reason : FailureReason) (msg : HubMessage) (h : Host D)
      → (report_failed if_not_empty report reason msg h).metrics ≡ h.metrics
  unfolding report_failed
  report_failed-metrics true reason msg h = refl
  report_failed-metrics false reason msg h = refl

  report_success-metrics :
      (report : Bool) (msg : HubMessage) (h : Host D)
      → (report_success if_not_empty report msg h).metrics ≡ h.metrics
  unfolding report_success
  report_success-metrics true msg h = refl
  report_success-metrics false msg h = refl

  -- What a call lets out, from some metrics on.
  abbrev pub Settles : HubMessage → OverloadMetrics → (Host D × Recipient D) × Bool → Type 0
  Settles msg m ((h, rc), sent) =
      (es : List (ℕ × Recording)) × (h.metrics ≡ run es m)
      × LetsOut (resolve_guarantee msg) (sent_count sent) es

  settle_send-Settles :
      (random : ℕ) (report : Bool) (msg : HubMessage) (frame : D) (m : OverloadMetrics)
      (s : (Host D × Recipient D) × Bool)
      → s.0.0.metrics ≡ m
      → Settles msg m (settle_send if_not_empty random report msg frame s)
  unfolding settle_send update_metrics run record_of
  settle_send-Settles random report msg frame m ((h, rc), true) e =
      let g = resolve_guarantee msg in
      let h' = report_success if_not_empty report msg h in
      let h'' = update_metrics (λ x. record_of random (delivers g) x) h' in
      (
        (random, delivers g) ∷ [],
        on_delivered-metrics h''
            ∙ ap (record_of random (delivers g)) (report_success-metrics report msg h ∙ e),
        one_more_out g random 0 (delivers g) [] (λ i. refl) (λ i. omega arith) (no_recordings g),
      )
  settle_send-Settles random report msg frame m ((h, rc), false) e = (
    [],
    report_failed-metrics report failure_reason_queue_full msg h ∙ e,
    no_recordings (resolve_guarantee msg),
  )

  module _ (marshal : HubMessage → Option D) where
    send_frame-Settles :
        (random : ℕ) (report : Bool) (msg : HubMessage) (o : Option D) (h : Host D)
        (rc : Recipient D)
        → Settles msg h.metrics (send_frame if_not_empty marshal random report msg o (h, rc))
    unfolding send_frame run
    send_frame-Settles random report msg none h rc = (
      [],
      report_failed-metrics report failure_reason_unknown msg h,
      no_recordings (resolve_guarantee msg),
    )
    send_frame-Settles random report msg (some frame) h rc =
        settle_send-Settles random report msg frame h.metrics (try_send_to frame h rc)
          (try_send_to-metrics frame h rc)

    send_admitted-Settles :
        (random : ℕ) (pre : Option D) (report : Bool) (msg : HubMessage) (now : ℤ)
        (rc : Recipient D) (a : Host D × AdmitVerdict)
        → rc.is_sse ≡ false
        → Settles msg a.0.metrics
            (send_admitted if_not_empty marshal random pre report msg now rc a)
    unfolding send_admitted run
    send_admitted-Settles random pre report msg now rc (h, verdict_admit) ws =
        subst (Settles msg h.metrics)
          (sym (
            if_false rc.is_sse (settle_sse_send if_not_empty report msg now (try_send_sse msg h rc))
              (send_frame if_not_empty marshal random report msg
                (frame_of if_not_empty marshal pre msg) (h, rc))
              ws))
          (send_frame-Settles random report msg (frame_of if_not_empty marshal pre msg) h rc)
    send_admitted-Settles random pre report msg now rc (h, verdict_delay) ws = (
      [],
      report_failed-metrics report failure_reason_queue_full msg h,
      no_recordings (resolve_guarantee msg),
    )
    send_admitted-Settles random pre report msg now rc (h, verdict_offline) ws = (
      [],
      report_failed-metrics report failure_reason_queue_full msg h,
      no_recordings (resolve_guarantee msg),
    )

    -- A message that is not ephemeral goes through the gate, with a coalescer or without.
    module _ (randoms : ℕ × ℕ) (pre : Option D) (msg : HubMessage) (now : ℤ) (h : Host D)
        (rc : Recipient D) (reliable : is_ephemeral (resolve_guarantee msg) ≡ false)
        (ws : rc.is_sse ≡ false) where
      send_open-gate :
          (report : Bool) (co : Option Coalescer)
          → send_open if_not_empty marshal randoms pre report msg now co (h, rc)
            ≡ send_admitted if_not_empty marshal randoms.1 pre report msg now rc
                (admit_message randoms.0 msg false h)
      unfolding send_open
      send_open-gate report none = refl
      send_open-gate report (some co) = rw reliable refl

      keep_undelivered-Settles :
          (random : ℕ) (m : OverloadMetrics) (s : (Host D × Recipient D) × Bool)
          → Settles msg m s
          → Settles msg m (keep_undelivered if_not_empty marshal random msg s)
            × ((keep_undelivered if_not_empty marshal random msg s).1 ≡ s.1)
      unfolding keep_undelivered
      keep_undelivered-Settles random m ((h', rc'), true) (es, e, out) = ((es, e, out), refl)
      keep_undelivered-Settles random m ((h', rc'), false) (es, e, out) =
          rw reliable ((es, store_offline-metrics msg h' ∙ e, out), refl)

      pub send_to_client_serialized-Settles :
          (random : ℕ)
          → rc.client.closed ≡ false
          → Settles msg
              (admit_message randoms.0 msg false h).0.metrics
              (send_to_client_serialized if_not_empty marshal randoms random pre msg now (h, rc))
      unfolding send_to_client_serialized try_deliver_to_client send_to_client_core
      send_to_client_serialized-Settles random live =
          (keep_undelivered-Settles random (admit_message randoms.0 msg false h).0.metrics
            (if rc.client.closed
              then ((h, rc), false)
              else send_open if_not_empty marshal randoms pre true msg now h.coalescer (h, rc))
            (subst (Settles msg (admit_message randoms.0 msg false h).0.metrics)
              (sym (
                if_false rc.client.closed ((h, rc), false)
                  (send_open if_not_empty marshal randoms pre true msg now h.coalescer (h, rc)) live
                ∙ send_open-gate true h.coalescer))
              (send_admitted-Settles randoms.1 pre true msg now rc
                (admit_message randoms.0 msg false h) ws))).0

-- An ephemeral message that a full coalescer refuses is counted as dropped twice.
module _ {ℓ} {D : Type ℓ} (if_not_empty : String → String → String)
    (marshal : HubMessage → Option D) where
  settle_offer-dropped :
      (random random' : ℕ) (report : Bool) (msg : HubMessage) (h : Host D)
      (co : Coalescer × Bool × Bool)
      → co.1 ≡ false
      → is_ephemeral (resolve_guarantee msg) ≡ true
      → (rc : Recipient D)
      → let r = settle_offer if_not_empty random report msg h co in
        let kept = keep_undelivered if_not_empty marshal random' msg ((r.0, rc), r.1) in
        kept.0.0.metrics ≡ run ((random, drops) ∷ (random', drops) ∷ []) h.metrics
  unfolding settle_offer keep_undelivered update_metrics run record_of report_failed
  settle_offer-dropped random random' true msg h (co, false, merged) e is rc = rw is refl
  settle_offer-dropped random random' false msg h (co, false, merged) e is rc = rw is refl
  settle_offer-dropped random random' report msg h (co, true, merged) e is rc = cc
