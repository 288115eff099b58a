-- ===== src/Messaging/Ack/Wait.antt =====
-- messaging/ack.go: a wait for an acknowledgement with retries. Each round of the loop is one wake-up: of
-- the cases that are ready `select` takes any. The message that is sent again is a value; whether the
-- call of it fails, and what is acknowledged during the call, come with the wake-up.
pub mod Ends
mod Silence
use go_wsc.Base.{
  String, Bool, true, false, Option, none, some, List, [], ◌∷◌, if◌then◌else◌, nat_eq, string_eq,
  pair_eq,
}
use go_wsc.Base.Int.{ℤ, pos, ◌+ℤ◌, leb_ℤ, int64}
use go_wsc.Messaging.Ack.{AckMessage, PendingMessage}

-- Why a wait ends with no acknowledgement. The failure of the call is a text.
pub data WaitError : Type 0 where
  ack_timeout : String → WaitError
  ack_timeout_retries : ℤ → String → WaitError
  context_cancelled : String → WaitError
  retry_failed : String → WaitError

pub data Wake : Type 0 where
  received : Wake
  timer : (failure : Option String) (during : Option AckMessage) → Wake
  done : Wake

-- A wait goes on with a message, or it ends. The message has counted the calls.
pub data Waiting : Type 0 where
  waits : PendingMessage → Waiting
  acked : AckMessage → PendingMessage → Waiting
  failed : WaitError → PendingMessage → Waiting

-- A receive that does not block, and what is done when there is nothing.
unfoldable pub try_receive_ack : PendingMessage → Waiting → Waiting
try_receive_ack pm otherwise = elim pm.ack_chan [
  | some ack ↦ acked ack (record pm { ack_chan = none })
  | none ↦ otherwise
]

-- An acknowledgement that arrives, in an empty channel.
unfoldable pub arrive : Option AckMessage → PendingMessage → PendingMessage
arrive none pm = pm
arrive (some ack) pm = elim pm.ack_chan [ none ↦ record pm { ack_chan = some ack } | some _ ↦ pm ]

-- After the call to send it again.
unfoldable pub after_retry : Option String → PendingMessage → Waiting
unfolding try_receive_ack
after_retry (some failure) pm = failed (retry_failed failure) pm
after_retry none pm = try_receive_ack pm (waits pm)

unfoldable pub on_timer : Option String → Option AckMessage → PendingMessage → Waiting
unfolding ◌+ℤ◌ arrive after_retry
on_timer failure during pm =
    if leb_ℤ pm.max_retry pm.retry
    then failed (ack_timeout_retries pm.retry pm.message_id) pm
    else after_retry failure (arrive during (record pm { retry = int64 (pm.retry +ℤ pos 1) }))

-- One round of `WaitForAckWithRetry`. With nothing in the channel a receive is not ready.
unfoldable pub wake : Wake → PendingMessage → Waiting
unfolding try_receive_ack on_timer
wake received pm = try_receive_ack pm (waits pm)
wake (timer failure during) pm = try_receive_ack pm (on_timer failure during pm)
wake done pm = try_receive_ack pm (failed (context_cancelled pm.message_id) pm)

-- What happens to a wait: a wake-up, or an acknowledgement that arrives.
pub data Event : Type 0 where
  wakes : Wake → Event
  arrives : AckMessage → Event

unfoldable pub happens : Event → PendingMessage → Waiting
unfolding wake arrive
happens (wakes w) pm = wake w pm
happens (arrives ack) pm = waits (arrive (some ack) pm)

-- The whole wait: it takes events until it ends.
unfoldable pub then_wait : (PendingMessage → Waiting) → Waiting → Waiting
then_wait rest (waits pm) = rest pm
then_wait rest (acked ack pm) = acked ack pm
then_wait rest (failed e pm) = failed e pm

unfoldable pub wait_for_ack_with_retry : List Event → PendingMessage → Waiting
unfolding happens then_wait
wait_for_ack_with_retry [] pm = waits pm
wait_for_ack_with_retry (e ∷ events) pm = then_wait (wait_for_ack_with_retry events) (happens e pm)

-- The wait without retries, when it is woken by the channel or by the context.
unfoldable pub wait_for_ack : Bool → PendingMessage → Waiting
unfolding try_receive_ack
wait_for_ack true pm = try_receive_ack pm (waits pm)
wait_for_ack false pm = failed (ack_timeout pm.message_id) pm
