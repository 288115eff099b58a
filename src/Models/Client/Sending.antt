-- ===== src/Models/Client/Sending.antt =====
-- models/client.go: the counters over whole calls.
use go_wsc.Base.{
  length, ◌++◌, [], ◌∷◌, ℕ, suc, ◌+◌, ◌-◌, ◌^◌, ◌≤◌, ◌<◌, ◌≡◌, refl, sym, ap, ◌∙◌, ◌⊎◌, inl, inr,
  Bool, true, false, Option, none, some, arith, ltb, if◌then◌else◌, Bool-cases, nat_eq, string_eq,
  pair_eq,
}
use mathlib.Core.Path.{subst}
use go_wsc.Base.Int.{ℤ, pos, ◌+ℤ◌, ◌-ℤ◌, leb_ℤ, eqb_ℤ, int64}
use go_wsc.Models.Client.{
  Chan, Client, Sent, sent_now, chan_full, chan_panic, min_ℤ, send_on, complete_pending_writes,
  mark_closed, reserve, settle, try_send,
}

lesser : ℕ → ℕ → ℕ
lesser n p = if ltb p n then p else n

lesser_le : (n p : ℕ) → (lesser n p ≤ n) × (lesser n p ≤ p) × (p - lesser n p ≡ p - n)
unfolding lesser
lesser_le n p = ground arith

same_left : (n p : ℕ) → n ≤ 0 → p - n ≡ p
same_left n p h = omega (arith, h)

untouched : (n p l : ℕ) → p - l ≡ p - n → l ≡ 0 → p - n ≡ p
untouched n p l e z = omega (arith, e, z)

none_left : (p : ℕ) → p - p ≡ 0
none_left p = omega arith

one_less : (p : ℕ) → suc p - 1 ≡ p
one_less p = omega arith

min_ℤ-pos : (z : ℤ) (n p : ℕ) → z ≡ pos p → min_ℤ (pos n) z ≡ pos (lesser n p)
unfolding lesser
min_ℤ-pos z n p e = rw e (ground arith)

sub_small : (z : ℤ) (a b : ℕ) → z ≡ pos a → b ≤ a → a < 2 ^ 63 → int64 (z -ℤ pos b) ≡ pos (a - b)
unfolding ◌-ℤ◌
sub_small z a b e h w = rw e (ground arith)

add_small : (z : ℤ) (a : ℕ) → z ≡ pos a → suc a < 2 ^ 63 → int64 (z +ℤ pos 1) ≡ pos (suc a)
unfolding ◌+ℤ◌
add_small z a e w = rw e (ground arith)

sent-full : ¬ (sent_now ≡ chan_full)
sent-full e = cc e

sent-panic : ¬ (sent_now ≡ chan_panic)
sent-panic e = cc e

module _ {ℓ} {D : Type ℓ} where
  -- The client counts `p` frames; the shared counter, which it is bound to, counts those and `rest` more.
  pub record IsCounted (p rest : ℕ) (s : Client D × ℤ) : Type ℓ where
    pub bound : s.0.bound ≡ true
    pub own : s.0.pending_writes ≡ pos p
    pub shared : s.1 ≡ pos (p + rest)
    pub small : p + rest < 2 ^ 62

  complete-IsCounted :
      (n p rest : ℕ) (s : Client D × ℤ)
      → IsCounted p rest s
      → IsCounted (p - n) rest (complete_pending_writes (pos n) s)
  unfolding complete_pending_writes
  complete-IsCounted n p rest (c, counter) i =
      let t = min_ℤ-pos c.pending_writes n p i.own in
      let (le, lep, left) = lesser_le n p in
      elim (Bool-cases (leb_ℤ (pos n) (pos 0))) [
        | inl nothing ↦ rw nothing (rw (same_left n p (ground (arith, nothing))) i)
        | inr some_left ↦
            rw (some_left, t)
              (elim (Bool-cases (eqb_ℤ (pos (lesser n p)) (pos 0))) [
                | inl none_pending ↦
                    rw none_pending
                      (rw (untouched n p (lesser n p) left (ground (arith, none_pending))) i)
                | inr pending ↦
                    rw (pending, i.bound)
                      (record {
                        bound = refl;
                        own =
                            sub_small c.pending_writes p (lesser n p) i.own lep
                              (omega (arith, i.small))
                            ∙ ap pos left;
                        shared =
                            sub_small counter (p + rest) (lesser n p) i.shared (omega arith)
                              (omega (arith, i.small))
                            ∙ ap pos (omega (arith, left));
                        small = omega (arith, i.small);
                      })
              ])
      ]

  reserve-IsCounted :
      (p rest : ℕ) (s : Client D × ℤ)
      → IsCounted p rest s
      → suc (p + rest) < 2 ^ 62
      → IsCounted (suc p) rest (reserve s)
  unfolding reserve
  reserve-IsCounted p rest (c, counter) i w = rw i.bound (record {
    bound = refl;
    own = add_small c.pending_writes p i.own (omega arith);
    shared = add_small counter (p + rest) i.shared (omega arith) ∙ ap pos (omega arith);
    small = omega arith;
  })

  complete-closed : (n : ℤ) (s : Client D × ℤ) → (complete_pending_writes n s).0.closed ≡ s.0.closed
  unfolding complete_pending_writes
  complete-closed n (c, counter) = ground arith

  -- Closing a client takes all of its frames out of the shared counter, and nothing else.
  pub mark_closed-IsCounted :
      (p rest : ℕ) (s : Client D × ℤ)
      → IsCounted p rest s
      → IsCounted 0 rest (mark_closed s) × ((mark_closed s).0.closed ≡ true)
  unfolding mark_closed
  mark_closed-IsCounted p rest (c, counter) i =
      let closing : IsCounted p rest (record c { closed = true }, counter) = record {
        bound = i.bound;
        own = i.own;
        shared = i.shared;
        small = i.small;
      } in
      let before : Client D × ℤ = (record c { closed = true }, counter) in
      (
        subst (λ z. IsCounted 0 rest (complete_pending_writes z before)) (sym i.own)
            (rw (none_left p) at (complete-IsCounted p p rest before closing)),
        complete-closed c.pending_writes (record c { closed = true }, counter),
      )

  complete-send_chan :
      (n : ℤ) (s : Client D × ℤ) → (complete_pending_writes n s).0.send_chan ≡ s.0.send_chan
  unfolding complete_pending_writes
  complete-send_chan n (c, counter) = ground arith

  mark_closed-send_chan : (s : Client D × ℤ) → (mark_closed s).0.send_chan ≡ s.0.send_chan
  unfolding mark_closed
  mark_closed-send_chan (c, counter) =
      complete-send_chan c.pending_writes (record c { closed = true }, counter)

  -- The channel `before` had room, and `after` is the same channel with the frame behind the others.
  abbrev pub Queued : D → Option (Chan D) → Option (Chan D) → Type ℓ
  Queued frame before after =
      (ch : Chan D) × (before ≡ some ch)
      × (ch.shut ≡ false)
      × (length ch.queue < ch.capacity)
      × (after ≡ some (record ch { queue = ch.queue ++ frame ∷ [] }))

  -- The three ends of a send: the frame is in the channel and counted, or the channel is as it was
  -- and nothing is counted that was not before, or the client is closed and counts nothing.
  abbrev pub Ends : D → Option (Chan D) → ℕ → ℕ → (Client D × ℤ) × Bool → Type ℓ
  Ends frame before p rest (s, sent) =
      ((sent ≡ true) × Queued frame before s.0.send_chan × IsCounted (suc p) rest s)
      ⊎ ((sent ≡ false) × (s.0.send_chan ≡ before) × IsCounted p rest s)
      ⊎ ((sent ≡ false) × (s.0.send_chan ≡ before) × IsCounted 0 rest s × (s.0.closed ≡ true))

  send_on-Queued :
      (frame : D) (ch : Chan D)
      → (send_on frame ch).1 ≡ sent_now
      → Queued frame (some ch) (some (send_on frame ch).0)
  unfolding send_on
  send_on-Queued frame ch e = elim (Bool-cases ch.shut) [
    | inl shut ↦ absurd (sent-panic (sym e ∙ rw shut refl))
    | inr unshut ↦ elim (Bool-cases (ltb (length ch.queue) ch.capacity)) [
      | inl room ↦ (ch, refl, unshut, ground (arith, room), rw (unshut, room) refl)
      | inr full ↦ absurd (sent-full (sym e ∙ rw (unshut, full) refl))
    ]
  ]

  settle-Ends :
      (frame : D) (before : Option (Chan D)) (p rest : ℕ) (s : Client D × ℤ) (r : Chan D × Sent)
      → IsCounted (suc p) rest s
      → s.0.send_chan ≡ before
      → (r.1 ≡ sent_now → Queued frame before (some r.0))
      → Ends frame before p rest (settle s r)
  unfolding settle
  settle-Ends frame before p rest (c, counter) (ch, sent_now) i e q =
      inl
        (refl, q refl, record { bound = i.bound; own = i.own; shared = i.shared; small = i.small })
  settle-Ends frame before p rest (c, counter) (ch, chan_full) i e q = inr (
      inl (
        refl,
        complete-send_chan (pos 1) (c, counter) ∙ e,
        rw (one_less p) at (complete-IsCounted 1 (suc p) rest (c, counter) i),
      ))
  settle-Ends frame before p rest (c, counter) (ch, chan_panic) i e q =
      let m = mark_closed-IsCounted (suc p) rest (c, counter) i in
      inr (
        inr (
          refl,
          complete-send_chan (pos 1) (mark_closed (c, counter))
              ∙ mark_closed-send_chan (c, counter)
              ∙ e,
          complete-IsCounted 1 0 rest (mark_closed (c, counter)) m.0,
          complete-closed (pos 1) (mark_closed (c, counter)) ∙ m.1,
        ))

  reserve-send_chan : (s : Client D × ℤ) → (reserve s).0.send_chan ≡ s.0.send_chan
  unfolding reserve
  reserve-send_chan (c, counter) = refl

  -- A send on a client that counts its frames, with less than 2^62 frames in all, has one of three
  -- ends. It reports that the frame is sent: the channel was open and had room, the frame now
  -- stands behind the others in it, and it is counted once, in the counter of the client and in the
  -- shared one. Or it reports that the frame is not sent, and the channel and both counters are as
  -- they were. Or it reports the same with the channel as it was, the client is closed, and all of
  -- its frames are taken out of the shared counter. What the other clients have in the shared
  -- counter never changes.
  pub try_send-Ends :
      (frame : D) (p rest : ℕ) (s : Client D × ℤ)
      → IsCounted p rest s
      → suc (p + rest) < 2 ^ 62
      → Ends frame s.0.send_chan p rest (try_send frame s)
  unfolding try_send
  try_send-Ends frame p rest (c, counter) i w = go c.send_chan c.closed refl
    where
      go :
          (o : Option (Chan D)) (shut : Bool)
          → c.send_chan ≡ o
          → Ends frame o p rest (elim o [
            | none ↦ ((c, counter), false)
            | some ch ↦
                if shut
                then ((c, counter), false)
                else settle (reserve (c, counter)) (send_on frame ch)
          ])
      go none shut e = inr (inl (refl, e, i))
      go (some ch) true e = inr (inl (refl, e, i))
      go (some ch) false e =
          settle-Ends frame (some ch) p rest (reserve (c, counter)) (send_on frame ch)
            (reserve-IsCounted p rest (c, counter) i w) (reserve-send_chan (c, counter) ∙ e)
            (send_on-Queued frame ch)
