-- ===== src/Messaging/Examples/Acks.antt =====
-- The theorems on messaging/ack.go at concrete inputs.
use go_wsc.Base.{
  String, ◌≡◌, refl, true, false, none, some, List, [], ◌∷◌, arith, if◌then◌else◌, nat_eq,
  string_eq, pair_eq,
}
use go_wsc.Base.Int.{ℤ, pos, ltb_ℤ}
use go_wsc.Base.Map
use go_wsc.Base.Map.{Map}
use go_wsc.Messaging.Ack.{
  AckManager, PendingMessage, AckMessage, new_ack_manager_with_options, store_pending,
  confirm_message, is_done,
}
use go_wsc.Messaging.Ack.Wait.{
  Event, wakes, arrives, timer, Wake, wake, wait_for_ack, acked, failed, ack_timeout,
  wait_for_ack_with_retry,
}
use go_wsc.Messaging.Ack.Wait.Ends.{IsOver, wait_for_ack_with_retry-IsOver}
use go_wsc.Messaging.Ack.Confirms.{confirm_message-delivers}
use go_wsc.Messaging.Ack.Live.{IsLive, new_ack_manager-IsLive, store_pending-IsLive}
use go_wsc.Messaging.Ack.Cleanup.{cleanup_expired, ended_at, cleanup_expired-ended}

-- A value that is not positive gives way to the other.
abbrev if_le_zero : ℤ → ℤ → ℤ
if_le_zero x d = if ltb_ℤ (pos 0) x then x else d

abbrev pending_mail : PendingMessage
pending_mail = record {
  message_id = "m";
  ack_chan = none;
  timestamp = pos 0;
  timeout = pos 5;
  retry = pos 0;
  max_retry = pos 2;
  deadline = pos 16;
  cancelled = false;
}

abbrev waiting : AckManager
waiting =
    store_pending pending_mail (new_ack_manager_with_options if_le_zero (pos 5) (pos 2) (pos 0))

waiting-IsLive : IsLive waiting
waiting-IsLive =
    store_pending-IsLive pending_mail
      (new_ack_manager_with_options if_le_zero (pos 5) (pos 2) (pos 0))
      (new_ack_manager-IsLive if_le_zero (pos 5) (pos 2) (pos 0)) (refl, refl, refl)

abbrev ack : AckMessage
ack = record { message_id = "m"; status = "confirmed"; timestamp = pos 7; error = "" }

abbrev events : List Event
events =
    wakes (timer none none) ∷ arrives ack ∷ wakes (timer none none) ∷ wakes (timer none none) ∷ []

wait_for_ack_with_retry-IsOver_example : IsOver (wait_for_ack_with_retry events pending_mail)
wait_for_ack_with_retry-IsOver_example =
    wait_for_ack_with_retry-IsOver events 0 2 pending_mail (refl, refl) (omega arith) (omega arith)
      (omega arith)

confirm_message-delivers_example :
    (pm : PendingMessage) × (Map.lookup 0 (confirm_message "m" ack waiting).0.places ≡ some pm)
    × ((confirm_message "m" ack waiting).1 ≡ true)
    × ((other : AckMessage)
        → (confirm_message "m" other (confirm_message "m" ack waiting).0).1 ≡ false)
    × ((w : Wake) → wake w pm ≡ acked ack (record pm { ack_chan = none }))
    × ((now : ℤ) → is_done now pm ≡ true)
    × (wait_for_ack false pm ≡ failed (ack_timeout "m") pm)
unfolding store_pending new_ack_manager_with_options Map.lookup Map.insert
confirm_message-delivers_example = confirm_message-delivers "m" ack 0 waiting waiting-IsLive refl

cleanup_expired-ended_example :
    ((k : String)
      → Map.lookup k (cleanup_expired (pos 20) waiting).0.pending ≡ (
          if ended_at (pos 20) waiting.places (Map.lookup k waiting.pending)
          then none
          else Map.lookup k waiting.pending))
    × IsLive (cleanup_expired (pos 20) waiting).0
cleanup_expired-ended_example = cleanup_expired-ended (pos 20) waiting waiting-IsLive
