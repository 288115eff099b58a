-- ===== src/Overload/DelayQueue.antt =====
-- overload/delay_queue.go: broadcasts that wait to be retried at the pace of the shaper. An entry is a
-- value, and the entries that are retried are the result of an operation. The loop holds an entry in its
-- hand from the time it receives it from the channel until it has waited and retries it.
pub mod Order
pub mod Backlog
use go_wsc.Base.{
  ℕ, Bool, true, false, Option, none, some, List, ◌∷◌, ◌++◌, ltb, if◌then◌else◌, nat_eq, string_eq,
  pair_eq, length, [],
}
use go_wsc.Base.Int.{ℤ, pos, ◌+ℤ◌, ◌-ℤ◌, ltb_ℤ, int64}

abbrev pub broadcast_delay_queue_capacity : ℕ
broadcast_delay_queue_capacity = 1024

module _ {ℓ} where
  pub record BroadcastDelayQueue (E : Type ℓ) : Type ℓ where
    pub entries : List E
    pub in_hand : List E
    pub queue_full : ℤ
    pub enqueued : ℤ
    pub drained : ℤ

-- How long the loop waits with an entry: the interval of a shaper, if there is one and it is positive.
unfoldable pub delay : Option ℤ → ℤ
delay none = pos 0
delay (some interval) = if ltb_ℤ (pos 0) interval then interval else pos 0

module _ {ℓ} {E : Type ℓ} where
  unfoldable pub new_broadcast_delay_queue : BroadcastDelayQueue E
  new_broadcast_delay_queue = record {
    entries = [];
    in_hand = [];
    queue_full = pos 0;
    enqueued = pos 0;
    drained = pos 0;
  }

  unfoldable pub offer : E → BroadcastDelayQueue E → BroadcastDelayQueue E × Bool
  offer entry q =
      if ltb (length q.entries) broadcast_delay_queue_capacity
      then (
        record q { entries = q.entries ++ entry ∷ []; enqueued = int64 (q.enqueued +ℤ pos 1) },
        true,
      )
      else (record q { queue_full = int64 (q.queue_full +ℤ pos 1) }, false)

  receive_from : BroadcastDelayQueue E → List E → List E → BroadcastDelayQueue E
  receive_from q [] (e ∷ es) = record q { in_hand = e ∷ []; entries = es }
  receive_from q hand es = q

  -- The loop receives an entry, when its hand is empty and there is one.
  unfoldable pub receive : BroadcastDelayQueue E → BroadcastDelayQueue E
  unfolding receive_from
  receive q = receive_from q q.in_hand q.entries

  retry_hand : BroadcastDelayQueue E → List E → BroadcastDelayQueue E × List E
  retry_hand q [] = (q, [])
  retry_hand q (e ∷ es) = (record q { in_hand = es; drained = int64 (q.drained +ℤ pos 1) }, e ∷ [])

  -- It retries the entry in its hand.
  unfoldable pub retry : BroadcastDelayQueue E → BroadcastDelayQueue E × List E
  unfolding retry_hand
  retry q = retry_hand q q.in_hand

  unfoldable pub drain_rest : List E → BroadcastDelayQueue E → BroadcastDelayQueue E
  drain_rest [] q = record q { entries = [] }
  drain_rest (e ∷ es) q = drain_rest es (record q { drained = int64 (q.drained +ℤ pos 1) })

  -- When the context is done, the entry in hand and then all that wait are retried at once.
  unfoldable pub shut_down : BroadcastDelayQueue E → BroadcastDelayQueue E × List E
  unfolding retry drain_rest
  shut_down q = let (q', out) = retry q in (drain_rest q'.entries q', out ++ q'.entries)

  unfoldable pub backlog : BroadcastDelayQueue E → ℤ
  backlog q = int64 (q.enqueued -ℤ q.drained)
