-- ===== src/Overload/DelayQueue/Backlog.antt =====
-- overload/delay_queue.go: the counters and the backlog.
use go_wsc.Base.{
  ℕ, suc, ◌+◌, ◌^◌, ◌<◌, ◌≡◌, refl, ap, ◌∙◌, ◌↔◌, inl, inr, false, List, [], ◌∷◌, ◌++◌, arith, ltb,
  ltb→lt, Bool-cases, nat_eq, string_eq, pair_eq, length, length-append,
}
use go_wsc.Base.Int.{ℤ, pos, ◌+ℤ◌, ◌-ℤ◌, int64}
use go_wsc.Overload.DelayQueue.{
  BroadcastDelayQueue, broadcast_delay_queue_capacity, offer, retry, retry_hand, backlog,
}
use go_wsc.Overload.DelayQueue.Order.{held, IsSound}

up_one : (z : ℤ) (n : ℕ) → z ≡ pos n → suc n < 2 ^ 63 → int64 (z +ℤ pos 1) ≡ pos (suc n)
unfolding ◌+ℤ◌
up_one z n e h = rw e (ground arith)

difference :
    (a b : ℤ) (n d : ℕ) → a ≡ pos (d + n) → b ≡ pos d → d + n < 2 ^ 63 → int64 (a -ℤ b) ≡ pos n
unfolding ◌-ℤ◌
difference a b n d e f h = rw (e, f) (ground arith)

module _ {ℓ} {E : Type ℓ} where
  -- The backlog of a sound queue, in which nothing wraps around, is the number of the entries that
  -- it holds.
  pub backlog-length :
      (d : ℕ) (q : BroadcastDelayQueue E)
      → IsSound d q
      → d + length (held q) < 2 ^ 63
      → backlog q ≡ pos (length (held q))
  unfolding backlog
  backlog-length d q s h =
      difference q.enqueued q.drained (length (held q)) d s.enqueued_reads s.drained_reads h

  -- Every offer to a sound queue keeps it sound; it is refused exactly when the channel is full.
  pub offer-IsSound :
      (d : ℕ) (e : E) (q : BroadcastDelayQueue E)
      → IsSound d q
      → suc (d + length (held q)) < 2 ^ 63
      → IsSound d (offer e q).0 × (((offer e q).1 ≡ false) ↔ (length q.entries ≡ 1024))
  unfolding offer
  offer-IsSound d e q s h =
      elim (Bool-cases (ltb (length q.entries) broadcast_delay_queue_capacity)) [
        | inl room ↦ rw room (
          record {
            drained_reads = s.drained_reads;
            enqueued_reads =
                up_one q.enqueued (d + length (held q)) s.enqueued_reads h
                ∙ ap pos (
                    omega (
                      arith,
                      length-append q.in_hand q.entries,
                      length-append q.in_hand (q.entries ++ e ∷ []),
                      length-append q.entries (e ∷ []),
                    ));
            bounded = omega (
              arith,
              length-append q.entries (e ∷ []),
              ltb→lt (length q.entries) broadcast_delay_queue_capacity room,
            );
            one_hand = s.one_hand;
          },
          (
            λ f. absurd (cc f),
            λ f.
                absurd
                  (omega (arith, f, ltb→lt (length q.entries) broadcast_delay_queue_capacity room)),
          ),
        )
        | inr none_left ↦ rw none_left (
          record {
            drained_reads = s.drained_reads;
            enqueued_reads = s.enqueued_reads;
            bounded = s.bounded;
            one_hand = s.one_hand;
          },
          (λ f. ground (arith, none_left, s.bounded), λ f. refl),
        )
      ]

  -- A retry of a sound queue keeps it sound, and is counted when there is an entry in hand.
  pub retry-IsSound :
      (d : ℕ) (q : BroadcastDelayQueue E)
      → IsSound d q
      → d + length (held q) < 2 ^ 63
      → IsSound (d + length (retry q).1) (retry q).0
  unfolding retry retry_hand
  retry-IsSound d q s h = go q.in_hand s h
    where
      with_hand : List E → BroadcastDelayQueue E
      with_hand hand = record q { in_hand = hand }

      go :
          (hand : List E)
          → IsSound d (with_hand hand)
          → d + length (hand ++ q.entries) < 2 ^ 63
          → IsSound
              (d + length (retry_hand (with_hand hand) hand).1)
              (retry_hand (with_hand hand) hand).0
      go [] t w = record {
        drained_reads = t.drained_reads ∙ ap pos (omega arith);
        enqueued_reads = t.enqueued_reads ∙ ap pos (omega arith);
        bounded = t.bounded;
        one_hand = t.one_hand;
      }
      go (e ∷ es) t w = record {
        drained_reads =
            up_one q.drained d t.drained_reads (omega (arith, w)) ∙ ap pos (omega arith);
        enqueued_reads = t.enqueued_reads ∙ ap pos (omega arith);
        bounded = t.bounded;
        one_hand = omega (arith, t.one_hand);
      }
