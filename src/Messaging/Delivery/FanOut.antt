-- ===== src/Messaging/Delivery/FanOut.antt =====
-- messaging/dispatcher.go: the loop of doBroadcastMessage over the connections that a broadcast is for.
use go_wsc.Base.{
  ℕ, Bool, true, false, ◌||◌, some, List, [], ◌∷◌, ◌++◌, if◌then◌else◌, nat_eq, string_eq, pair_eq,
}
use go_wsc.Base.Int.{ℤ, pos, ◌+ℤ◌, int32}
use go_wsc.Models.HubMessage.{DeliveryGuarantee, HubMessage}
use go_wsc.Messaging.Delivery.{Recipient, Host, try_send_to, finish_send}

module _ {ℓ} where
  -- What the loop leaves: the host, the connections, and how many it has reached and not reached.
  pub record Reached (D : Type ℓ) : Type ℓ where
    pub host : Host D
    pub recipients : List (Recipient D)
    pub success_count : ℤ
    pub fail_count : ℤ

module _ {ℓ} {D : Type ℓ} where
  -- A closed connection and an SSE one are passed over.
  unfoldable pub is_passed : Recipient D → Bool
  is_passed rc = rc.client.closed || rc.is_sse

  unfoldable pub count_sent : D → (Host D × Recipient D) × Bool → Reached D → Reached D
  unfolding ◌+ℤ◌
  count_sent frame ((h, rc), true) done = record {
    host = record h { tracked = h.tracked ++ (rc.id, rc.user_type, frame) ∷ [] };
    recipients = done.recipients ++ rc ∷ [];
    success_count = int32 (done.success_count +ℤ pos 1);
    fail_count = done.fail_count;
  }
  count_sent frame ((h, rc), false) done = record {
    host = h;
    recipients = done.recipients ++ rc ∷ [];
    success_count = done.success_count;
    fail_count = int32 (done.fail_count +ℤ pos 1);
  }

  unfoldable pub fan_out_one :
      D → HubMessage → DeliveryGuarantee → ℕ × Recipient D → Reached D → Reached D
  unfolding is_passed count_sent try_send_to finish_send
  fan_out_one frame msg g (random, rc) done =
      if is_passed rc
      then record done { recipients = done.recipients ++ rc ∷ [] }
      else count_sent frame (finish_send random (some msg) g (try_send_to frame done.host rc)) done

  unfoldable pub fan_out :
      D → HubMessage → DeliveryGuarantee → List (ℕ × Recipient D) → Reached D → Reached D
  unfolding fan_out_one
  fan_out frame msg g [] done = done
  fan_out frame msg g (r ∷ rs) done = fan_out frame msg g rs (fan_out_one frame msg g r done)

  unfoldable pub broadcast_to :
      D → HubMessage → DeliveryGuarantee → List (ℕ × Recipient D) → Host D → Reached D
  unfolding fan_out
  broadcast_to frame msg g rs h =
      fan_out frame msg g rs
        (record { host = h; recipients = []; success_count = pos 0; fail_count = pos 0 })
