-- ===== src/Messaging/Ack.antt =====
-- messaging/ack.go: the messages that wait for an acknowledgement. The manager and a waiter share a
-- pending message, so it stands in a store, and both name it by its place there. The time is an argument.
-- `mathx.IfLeZero`, of another package, is a parameter.
pub mod Wait
pub mod Live
pub mod Confirms
pub mod Cleanup
use go_wsc.Base.{
  ℕ, suc, ◌*◌, String, Bool, true, false, ◌&&◌, ◌||◌, Option, none, some, [], ◌>>=◌, if◌then◌else◌,
  nat_eq, string_eq, pair_eq, length,
}
use go_wsc.Base.Int.{ℤ, pos, ◌+ℤ◌, ◌*ℤ◌, ltb_ℤ, leb_ℤ, int64}
use go_wsc.Base.Map
use go_wsc.Base.Map.{Map}

abbrev pub AckStatus : Type 0
AckStatus = String

abbrev pub ack_status_pending : AckStatus
ack_status_pending = "pending"

abbrev pub ack_status_confirmed : AckStatus
ack_status_confirmed = "confirmed"

abbrev pub ack_status_timeout : AckStatus
ack_status_timeout = "timeout"

abbrev pub ack_status_failed : AckStatus
ack_status_failed = "failed"

pub record AckMessage : Type 0 where
  pub message_id : String
  pub status : AckStatus
  pub timestamp : ℤ
  pub error : String

-- The channel holds one acknowledgement at most. The context ends at its deadline or when it is cancelled.
pub record PendingMessage : Type 0 where
  pub message_id : String
  pub ack_chan : Option AckMessage
  pub timestamp : ℤ
  pub timeout : ℤ
  pub retry : ℤ
  pub max_retry : ℤ
  pub deadline : ℤ
  pub cancelled : Bool

-- `pending` names the place of the message of each id.
pub record AckManager : Type 0 where
  pub pending : Map String ℕ
  pub places : Map ℕ PendingMessage
  pub next : ℕ
  pub timeout : ℤ
  pub max_retry : ℤ
  pub expire_duration : ℤ

-- A second, in nanoseconds.
abbrev pub second : ℕ
second = 1000000000

pub context_timeout : ℤ → ℤ → ℤ → ℤ
unfolding ◌+ℤ◌ ◌*ℤ◌
context_timeout expire_duration timeout max_retry =
    let whole = int64 (int64 (timeout *ℤ int64 (max_retry +ℤ pos 1)) +ℤ pos second) in
    if ltb_ℤ (pos 0) expire_duration && ltb_ℤ expire_duration whole then expire_duration else whole

-- The message takes the next place, and its id names it.
unfoldable pub store_pending : PendingMessage → AckManager → AckManager
unfolding Map.insert
store_pending pm am = record am {
  pending = Map.insert pm.message_id am.next am.pending;
  places = Map.insert am.next pm am.places;
  next = suc am.next;
}

module _ (if_le_zero : ℤ → ℤ → ℤ) where
  unfoldable pub new_ack_manager_with_options : ℤ → ℤ → ℤ → AckManager
  new_ack_manager_with_options ack_timeout max_retry expire_duration = record {
    pending = [];
    places = [];
    next = 0;
    timeout = if_le_zero ack_timeout (pos (5 * second));
    max_retry = if_le_zero max_retry (pos 3);
    expire_duration = if_le_zero expire_duration (pos (300 * second));
  }

  unfoldable pub new_ack_manager : ℤ → ℤ → AckManager
  unfolding new_ack_manager_with_options
  new_ack_manager ack_timeout max_retry = new_ack_manager_with_options ack_timeout max_retry (pos 0)

  -- The new manager, and the place of the message.
  unfoldable pub pending_message : String → ℤ → ℤ → ℤ → AckManager → PendingMessage
  unfolding context_timeout ◌+ℤ◌
  pending_message message_id timeout max_retry now am =
      let t = if_le_zero timeout am.timeout in
      let retries = if_le_zero max_retry am.max_retry in
      record {
        message_id = message_id;
        ack_chan = none;
        timestamp = now;
        timeout = t;
        retry = pos 0;
        max_retry = retries;
        deadline = now +ℤ context_timeout am.expire_duration t retries;
        cancelled = false;
      }

  unfoldable pub add_pending_message_with_expire : String → ℤ → ℤ → ℤ → AckManager → AckManager × ℕ
  unfolding pending_message store_pending
  add_pending_message_with_expire message_id timeout max_retry now am =
      (store_pending (pending_message message_id timeout max_retry now am) am, am.next)

  unfoldable pub add_pending_message : String → ℤ → AckManager → AckManager × ℕ
  unfolding add_pending_message_with_expire
  add_pending_message message_id now am =
      add_pending_message_with_expire message_id am.timeout am.max_retry now am

unfoldable pub get_pending_message : String → AckManager → Option PendingMessage
unfolding Map.lookup
get_pending_message message_id am = do
  place ← Map.lookup message_id am.pending
  Map.lookup place am.places

-- A change of the message at a place.
unfoldable pub write : ℕ → (PendingMessage → PendingMessage) → AckManager → AckManager
unfolding Map.lookup Map.insert
write place f am = elim (Map.lookup place am.places) [
  | none ↦ am
  | some pm ↦ record am { places = Map.insert place (f pm) am.places }
]

unfoldable pub cancel : PendingMessage → PendingMessage
cancel pm = record pm { cancelled = true }

-- The send on the channel, which is refused when it is full, and then the context is cancelled.
unfoldable pub acknowledge : AckMessage → PendingMessage → PendingMessage × Bool
unfolding cancel
acknowledge ack pm = elim pm.ack_chan [
  | none ↦ (cancel (record pm { ack_chan = some ack }), true)
  | some _ ↦ (cancel pm, false)
]

pub confirm_at : AckMessage → ℕ → Option PendingMessage → AckManager → AckManager × Bool
unfolding acknowledge Map.insert
confirm_at ack place none am = (am, false)
confirm_at ack place (some pm) am =
    let (pm', sent) = acknowledge ack pm in
    (record am { places = Map.insert place pm' am.places }, sent)

pub confirm_found : String → AckMessage → Option ℕ → AckManager → AckManager × Bool
unfolding confirm_at Map.erase
confirm_found message_id ack none am = (am, false)
confirm_found message_id ack (some place) am =
    confirm_at ack place (Map.lookup place am.places)
      (record am { pending = Map.erase message_id am.pending })

unfoldable pub confirm_message : String → AckMessage → AckManager → AckManager × Bool
unfolding confirm_found Map.lookup
confirm_message message_id ack am =
    confirm_found message_id ack (Map.lookup message_id am.pending) am

pub remove_found : String → Option ℕ → AckManager → AckManager
unfolding write cancel Map.erase
remove_found message_id none am = am
remove_found message_id (some place) am =
    write place cancel (record am { pending = Map.erase message_id am.pending })

unfoldable pub remove_pending_message : String → AckManager → AckManager
unfolding remove_found Map.lookup
remove_pending_message message_id am = remove_found message_id (Map.lookup message_id am.pending) am

unfoldable pub is_done : ℤ → PendingMessage → Bool
is_done now pm = pm.cancelled || leb_ℤ pm.deadline now

unfoldable pub get_pending_count : AckManager → ℕ
get_pending_count am = length am.pending

unfoldable pub get_timeout : AckManager → ℤ
get_timeout am = am.timeout

unfoldable pub get_max_retry : AckManager → ℤ
get_max_retry am = am.max_retry

unfoldable pub set_expire_duration : ℤ → AckManager → AckManager
set_expire_duration duration am = record am { expire_duration = duration }
