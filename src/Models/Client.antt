-- ===== src/Models/Client.antt =====
-- models/client.go: a connection's channels and the accounting of the frames that it has not yet written.
-- The counter that the connections of a hub share is passed along; `bound` says whether the connection
-- points to it. A frame is a value of any type. Each operation is one step here; its atomic steps are
-- those of Models/Client/Interleaving.antt.
pub mod Sending
pub mod Interleaving
pub mod Balance
use go_wsc.Base.{
  ℕ, suc, ◌/◌, Bool, true, false, Option, none, some, List, ◌∷◌, ◌++◌, ltb, if◌then◌else◌, nat_eq,
  string_eq, pair_eq, length, [],
}
use go_wsc.Base.Int.{ℤ, pos, negsuc, pos_part, ◌+ℤ◌, ◌-ℤ◌, ◌*ℤ◌, ltb_ℤ, leb_ℤ, eqb_ℤ, int64}

module _ {ℓ} where
  pub record Chan (D : Type ℓ) : Type ℓ where
    pub queue : List D
    pub capacity : ℕ
    pub shut : Bool

  pub record Client (D : Type ℓ) : Type ℓ where
    pub pending_writes : ℤ
    pub bound : Bool
    pub closed : Bool
    pub send_chan : Option (Chan D)
    pub ctrl_ch : Option (Chan D)
    pub backlog_ratio : ℤ

-- What a non-blocking send on a channel does; a send on a closed one panics.
pub data Sent : Type 0 where
  sent_now chan_full chan_panic : Sent

abbrev pub min_ℤ : ℤ → ℤ → ℤ
min_ℤ a b = if ltb_ℤ b a then b else a

module _ {ℓ} {D : Type ℓ} where
  unfoldable pub send_on : D → Chan D → Chan D × Sent
  send_on frame ch =
      if ch.shut
      then (ch, chan_panic)
      else if ltb (length ch.queue) ch.capacity
      then (record ch { queue = ch.queue ++ frame ∷ [] }, sent_now)
      else (ch, chan_full)

  -- The exchange that takes the loop of CompletePendingWrites to its end; the client and the counter.
  unfoldable pub complete_pending_writes : ℤ → Client D × ℤ → Client D × ℤ
  complete_pending_writes n (c, counter) =
      let take = min_ℤ n c.pending_writes in
      if leb_ℤ n (pos 0) then (c, counter) else if eqb_ℤ take (pos 0) then (c, counter) else (
        record c { pending_writes = int64 (c.pending_writes -ℤ take) },
        if c.bound then int64 (counter -ℤ take) else counter,
      )

  unfoldable pub mark_closed : Client D × ℤ → Client D × ℤ
  unfolding complete_pending_writes
  mark_closed (c, counter) =
      complete_pending_writes c.pending_writes (record c { closed = true }, counter)

  unfoldable pub set_pending_counter : Client D → Client D
  set_pending_counter c = record c { bound = true }

  -- The frame is counted before it is offered.
  unfoldable pub reserve : Client D × ℤ → Client D × ℤ
  reserve (c, counter) = (
    record c { pending_writes = int64 (c.pending_writes +ℤ pos 1) },
    if c.bound then int64 (counter +ℤ pos 1) else counter,
  )

  -- After the send_on: a panic closes the client, and a frame that is not sent is not counted.
  unfoldable pub settle : Client D × ℤ → Chan D × Sent → (Client D × ℤ) × Bool
  unfolding complete_pending_writes mark_closed
  settle (c, counter) (ch, sent_now) = ((record c { send_chan = some ch }, counter), true)
  settle (c, counter) (ch, chan_full) = (complete_pending_writes (pos 1) (c, counter), false)
  settle (c, counter) (ch, chan_panic) =
      (complete_pending_writes (pos 1) (mark_closed (c, counter)), false)

  -- The second test of `closed`, which only another thread can make fail, is a step of Interleaving.
  unfoldable pub try_send : D → Client D × ℤ → (Client D × ℤ) × Bool
  unfolding reserve settle send_on
  try_send frame (c, counter) = elim c.send_chan [
    | none ↦ ((c, counter), false)
    | some ch ↦
        if c.closed then ((c, counter), false) else settle (reserve (c, counter)) (send_on frame ch)
  ]

  settle_control : Client D × ℤ → Chan D × Sent → (Client D × ℤ) × Bool
  unfolding mark_closed
  settle_control (c, counter) (ch, sent_now) = ((record c { ctrl_ch = some ch }, counter), true)
  settle_control (c, counter) (ch, chan_full) = ((c, counter), false)
  settle_control (c, counter) (ch, chan_panic) = (mark_closed (c, counter), false)

  unfoldable pub try_send_control : D → Client D × ℤ → (Client D × ℤ) × Bool
  unfolding settle_control send_on
  try_send_control frame (c, counter) = elim c.ctrl_ch [
    | none ↦ ((c, counter), false)
    | some ch ↦
        if c.closed then ((c, counter), false) else settle_control (c, counter) (send_on frame ch)
  ]

-- Go's division rounds towards 0.
unfoldable pub ratio_of : ℤ → ℤ → ℤ
ratio_of (pos used) capacity = pos (used / pos_part capacity)
ratio_of (negsuc used) capacity = pos 0 -ℤ pos (suc used / pos_part capacity)

module _ {ℓ} {D : Type ℓ} where
  unfoldable pub set_backlog_ratio : ℤ → ℤ → Client D → Client D
  unfolding ratio_of
  set_backlog_ratio used capacity c =
      let ratio = ratio_of (int64 (used *ℤ pos 10000)) capacity in
      if leb_ℤ capacity (pos 0) then c else record c {
        backlog_ratio =
            if ltb_ℤ ratio (pos 0)
            then pos 0
            else if ltb_ℤ (pos 10000) ratio
            then pos 10000
            else ratio;
      }
