-- ===== src/Messaging/Ack/Confirms.antt =====
-- messaging/ack.go: a pending message that is confirmed reaches its waiter.
use go_wsc.Messaging.Ack.Wait.Ends.{wake-acked}
use go_wsc.Messaging.Ack.Wait.{ack_timeout, Wake, acked, failed, wake, wait_for_ack}
use go_wsc.Base.{
  ℕ, String, ◌≡◌, refl, ap, true, false, none, some, nat_eq, string_eq, pair_eq, agrees_refl,
}
use go_wsc.Base.Int.{ℤ}
use go_wsc.Base.Map
use go_wsc.Base.Map.{Map}
use go_wsc.Messaging.Ack.{
  PendingMessage, AckManager, AckMessage, confirm_found, confirm_message, is_done,
}
use go_wsc.Messaging.Ack.Live.{IsLive, pending_at, retire, answered, confirm_message-retire}

gone :
    (id : String) (ack : AckMessage) (am : AckManager)
    → Map.lookup id am.pending ≡ none
    → (confirm_message id ack am).1 ≡ false
unfolding confirm_message confirm_found
gone id ack am e = rw (e, confirm_found) refl

-- In a live manager a pending message is confirmed once: the call says so, and a second call for
-- its id says no. Its channel then holds the acknowledgement and its context has ended; a wait with
-- retries ends with the acknowledgement, whatever wakes it, but a plain wait that is woken by the
-- context ends with a timeout.
pub confirm_message-delivers :
    (id : String) (ack : AckMessage) (place : ℕ) (am : AckManager)
    → IsLive am
    → Map.lookup id am.pending ≡ some place
    → (pm : PendingMessage) × (Map.lookup place (confirm_message id ack am).0.places ≡ some pm)
      × ((confirm_message id ack am).1 ≡ true)
      × ((other : AckMessage) → (confirm_message id other (confirm_message id ack am).0).1 ≡ false)
      × ((w : Wake) → wake w pm ≡ acked ack (record pm { ack_chan = none }))
      × ((now : ℤ) → is_done now pm ≡ true)
      × (wait_for_ack false pm ≡ failed (ack_timeout id) pm)
unfolding is_done wait_for_ack
confirm_message-delivers id ack place am s named =
    let (pm, here, is_id, empty) = pending_at id place am s named in
    let done = confirm_message-retire id ack place pm am named here empty in
    (
      answered ack pm,
      rw done
          (rw (Map.lookup-insert place place (answered ack pm) am.places, agrees_refl place) refl),
      rw done refl,
      λ other. rw done (
          gone id other (retire id place (answered ack pm) am)
            (rw (Map.lookup-erase id id am.pending, agrees_refl id) refl)),
      λ w. wake-acked w (answered ack pm) ack refl,
      λ now. refl,
      ap (λ x. failed (ack_timeout x) (answered ack pm)) is_id,
    )
