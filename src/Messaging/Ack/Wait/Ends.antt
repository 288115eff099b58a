-- ===== src/Messaging/Ack/Wait/Ends.antt =====
-- messaging/ack.go: how a wait for an acknowledgement with retries ends.
use go_wsc.Base.{
  ℕ, ◌+◌, ◌^◌, ◌≤◌, ◌<◌, String, ◌≡◌, refl, ap, ◌∙◌, inl, inr, Option, none, some, List, [], ◌∷◌,
  arith, Bool-cases, Option-cases, nat_eq, string_eq, pair_eq, total,
}
use go_wsc.Base.Int.{pos, ◌+ℤ◌, leb_ℤ, int64, +ℤ-pos, int64-pos}
use mathlib.Core.Path.{subst}
use go_wsc.Messaging.Ack.{AckMessage, PendingMessage}
use go_wsc.Messaging.Ack.Wait.{
  Wake, received, timer, done, Waiting, waits, acked, failed, try_receive_ack, arrive, after_retry,
  on_timer, wake, Event, wakes, arrives, happens, then_wait, wait_for_ack_with_retry,
}

-- Whatever wakes a wait whose channel holds an acknowledgement, the wait ends with it.
pub wake-acked :
    (w : Wake) (pm : PendingMessage) (ack : AckMessage)
    → pm.ack_chan ≡ some ack
    → wake w pm ≡ acked ack (record pm { ack_chan = none })
unfolding wake try_receive_ack
wake-acked received pm ack h = rw (h, try_receive_ack) refl
wake-acked (timer failure during) pm ack h = rw (h, try_receive_ack) refl
wake-acked done pm ack h = rw (h, try_receive_ack) refl

abbrev pub IsOver : Waiting → Type 0
IsOver (waits pm) = ⊥
IsOver (acked ack pm) = Unit
IsOver (failed e pm) = Unit

abbrev pub is_timer : Event → ℕ
is_timer (wakes received) = 0
is_timer (wakes (timer failure during)) = 1
is_timer (wakes done) = 0
is_timer (arrives ack) = 0

-- A message has counted some calls, and allows some.
abbrev pub Counts : ℕ → ℕ → PendingMessage → Type 0
Counts r m pm = (pm.retry ≡ pos r) × (pm.max_retry ≡ pos m)

-- The message of a wait, also of one that has ended.
abbrev pub message_of : Waiting → PendingMessage
message_of (waits pm) = pm
message_of (acked ack pm) = pm
message_of (failed e pm) = pm

-- The calls that a wait has counted lie between two numbers.
abbrev pub Within : ℕ → ℕ → Waiting → Type 0
Within r m w = (k : ℕ) × ((message_of w).retry ≡ pos k) × (r ≤ k) × (k ≤ m)

-- A wait that goes on after an event has counted a call if that was the timer, and no more than it may.
abbrev Goes : ℕ → ℕ → ℕ → Waiting → Type 0
Goes t r m (waits pm) = Counts (r + t) m pm × (r + t ≤ m)
Goes t r m (acked ack pm) = Within r m (acked ack pm)
Goes t r m (failed e pm) = Within r m (failed e pm)

pub same_count : (r : ℕ) → r ≡ r + 0
same_count r = omega arith

pub one_more : (r m : ℕ) → r < m → m < 2 ^ 62 → int64 (pos r +ℤ pos 1) ≡ pos (r + 1)
one_more r m h b = ap int64 (+ℤ-pos r 1) ∙ int64-pos (r + 1) (omega arith)

module _ (r m : ℕ) (small : m < 2 ^ 62) where
  arrive-Counts :
      (a : Option AckMessage) (pm : PendingMessage) (k : ℕ)
      → Counts k m pm
      → Counts k m (arrive a pm)
  unfolding arrive
  arrive-Counts a pm k c = ground arith

  try-Goes :
      (t : ℕ) (pm : PendingMessage) (w : Waiting)
      → Counts r m pm
      → r ≤ m
      → Goes t r m w
      → Goes t r m (try_receive_ack pm w)
  unfolding try_receive_ack
  try-Goes t pm w c le g = elim (Option-cases pm.ack_chan) [
    | inl e ↦ rw (e, try_receive_ack) g
    | inr (a, e) ↦ rw (e, try_receive_ack) (r, c.0, omega arith, le)
  ]

  after_retry-Goes :
      (failure : Option String) (pm : PendingMessage)
      → Counts (r + 1) m pm
      → r < m
      → Goes 1 r m (after_retry failure pm)
  unfolding after_retry try_receive_ack
  after_retry-Goes (some f) pm c lt = (r + 1, c.0, omega arith, omega arith)
  after_retry-Goes none pm c lt = elim (Option-cases pm.ack_chan) [
    | inl e ↦ rw (e, try_receive_ack) (c, omega arith)
    | inr (a, e) ↦ rw (e, try_receive_ack) (r + 1, c.0, omega arith, omega arith)
  ]

  on_timer-Goes :
      (failure : Option String) (during : Option AckMessage) (pm : PendingMessage)
      → Counts r m pm
      → r ≤ m
      → Goes 1 r m (on_timer failure during pm)
  unfolding on_timer
  on_timer-Goes failure during pm c le = elim (Bool-cases (leb_ℤ pm.max_retry pm.retry)) [
    | inl e ↦ rw e (r, c.0, omega arith, le)
    | inr e ↦
        let lt : r < m = ground (arith, e, c.0, c.1) in
        rw e (
          after_retry-Goes failure (arrive during (record pm { retry = int64 (pm.retry +ℤ pos 1) }))
            (arrive-Counts during (record pm { retry = int64 (pm.retry +ℤ pos 1) }) (r + 1)
              (rw c.0 (one_more r m lt small), c.1))
            lt)
  ]

  happens-Goes :
      (e : Event) (pm : PendingMessage)
      → Counts r m pm
      → r ≤ m
      → Goes (is_timer e) r m (happens e pm)
  unfolding happens wake
  happens-Goes (wakes received) pm c le =
      try-Goes 0 pm (waits pm) c le ((c.0 ∙ ap pos (same_count r), c.1), omega arith)
  happens-Goes (wakes (timer failure during)) pm c le =
      try-Goes 1 pm (on_timer failure during pm) c le (on_timer-Goes failure during pm c le)
  happens-Goes (wakes done) pm c le = try-Goes 0 pm (failed _ pm) c le (r, c.0, omega arith, le)
  happens-Goes (arrives ack) pm c le = (
    subst (λ k. Counts k m (arrive (some ack) pm)) (same_count r) (arrive-Counts (some ack) pm r c),
    omega arith,
  )

module _ (t r m : ℕ) (rest : PendingMessage → Waiting) where
  then-IsOver :
      ((pm : PendingMessage) → Counts (r + t) m pm × (r + t ≤ m) → IsOver (rest pm))
      → (w : Waiting) → Goes t r m w
      → IsOver (then_wait rest w)
  unfolding then_wait
  then-IsOver h (waits pm) g = h pm g
  then-IsOver h (acked a pm) g = tt
  then-IsOver h (failed e pm) g = tt

  then-Within :
      ((pm : PendingMessage) → Counts (r + t) m pm × (r + t ≤ m) → Within (r + t) m (rest pm))
      → (w : Waiting) → Goes t r m w
      → Within r m (then_wait rest w)
  unfolding then_wait
  then-Within h (waits pm) g = let (k, e, lo, hi) = h pm g in (k, e, omega arith, hi)
  then-Within h (acked a pm) g = g
  then-Within h (failed e pm) g = g

-- A wait with retries, whose message has counted no more calls than it may, with fewer than 2 to
-- the 62nd, is over after any events among which the timer fires more often than there are calls
-- left, acknowledgements and failures of the calls included.
pub wait_for_ack_with_retry-IsOver :
    (events : List Event) (r m : ℕ) (pm : PendingMessage)
    → Counts r m pm
    → r ≤ m
    → m < 2 ^ 62
    → m < r + total is_timer events
    → IsOver (wait_for_ack_with_retry events pm)
unfolding wait_for_ack_with_retry
wait_for_ack_with_retry-IsOver [] r m pm c le small h = absurd (omega arith)
wait_for_ack_with_retry-IsOver (e ∷ events) r m pm c le small h =
    then-IsOver (is_timer e) r m (wait_for_ack_with_retry events)
      (λ pm' g.
        wait_for_ack_with_retry-IsOver events (r + is_timer e) m pm' g.0 g.1 small (omega arith))
      (happens e pm) (happens-Goes r m small e pm c le)

-- Whatever happens to a wait with retries, whose message has counted no more calls than it may,
-- with fewer than 2 to the 62nd, it never counts fewer calls than before and never more than it
-- may.
pub wait_for_ack_with_retry-Within :
    (events : List Event) (r m : ℕ) (pm : PendingMessage)
    → Counts r m pm
    → r ≤ m
    → m < 2 ^ 62
    → Within r m (wait_for_ack_with_retry events pm)
unfolding wait_for_ack_with_retry
wait_for_ack_with_retry-Within [] r m pm c le small = (r, c.0, omega arith, le)
wait_for_ack_with_retry-Within (e ∷ events) r m pm c le small =
    then-Within (is_timer e) r m (wait_for_ack_with_retry events)
      (λ pm' g. wait_for_ack_with_retry-Within events (r + is_timer e) m pm' g.0 g.1 small)
      (happens e pm) (happens-Goes r m small e pm c le)
