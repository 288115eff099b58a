-- ===== src/Overload/DelayQueue/Order.antt =====
-- overload/delay_queue.go: the order of the entries over runs of calls.
use go_wsc.Base.{
  ℕ, ◌+◌, ◌≤◌, ◌≡◌, refl, sym, ap, ◌∙◌, inl, inr, List, [], ◌∷◌, ◌++◌, arith, ltb, if◌then◌else◌,
  Bool-cases, nat_eq, string_eq, pair_eq, length,
}
use go_wsc.Base.Int.{pos, ◌+ℤ◌, int64}
use mathlib.Core.List.{append_assoc, append-nil}
use go_wsc.Overload.DelayQueue.{
  BroadcastDelayQueue, broadcast_delay_queue_capacity, offer, receive, receive_from, retry,
  retry_hand, drain_rest, shut_down,
}

module _ {ℓ} where
  pub data Call (E : Type ℓ) : Type ℓ where
    offers : E → Call E
    receives retries shuts_down : Call E

module _ {ℓ} {E : Type ℓ} where
  -- The entries that are in the queue, the one in hand first.
  abbrev pub held : BroadcastDelayQueue E → List E
  held q = q.in_hand ++ q.entries

  -- The queue whose backlog counts its entries: `d` were retried, and at most one is in hand.
  pub record IsSound (d : ℕ) (q : BroadcastDelayQueue E) : Type ℓ where
    pub drained_reads : q.drained ≡ pos d
    pub enqueued_reads : q.enqueued ≡ pos (d + length (held q))
    pub bounded : length q.entries ≤ broadcast_delay_queue_capacity
    pub one_hand : length q.in_hand ≤ 1

  abbrev pub accepted_by : Call E → BroadcastDelayQueue E → List E
  accepted_by (offers e) q = if (offer e q).1 then e ∷ [] else []
  accepted_by receives q = []
  accepted_by retries q = []
  accepted_by shuts_down q = []

  abbrev pub step : Call E → BroadcastDelayQueue E → BroadcastDelayQueue E × List E
  step (offers e) q = ((offer e q).0, [])
  step receives q = (receive q, [])
  step retries q = retry q
  step shuts_down q = shut_down q

  abbrev pub run : List (Call E) → BroadcastDelayQueue E → BroadcastDelayQueue E
  run [] q = q
  run (c ∷ cs) q = run cs (step c q).0

  abbrev pub accepted : List (Call E) → BroadcastDelayQueue E → List E
  accepted [] q = []
  accepted (c ∷ cs) q = accepted_by c q ++ accepted cs (step c q).0

  abbrev pub retried : List (Call E) → BroadcastDelayQueue E → List E
  retried [] q = []
  retried (c ∷ cs) q = (step c q).1 ++ retried cs (step c q).0

  drain_rest-held :
      (es : List E) (q : BroadcastDelayQueue E) → held (drain_rest es q) ≡ q.in_hand ++ []
  unfolding drain_rest
  drain_rest-held [] q = refl
  drain_rest-held (e ∷ es) q =
      drain_rest-held es (record q { drained = int64 (q.drained +ℤ pos 1) })

  receive-held : (q : BroadcastDelayQueue E) → held (receive q) ≡ held q
  unfolding receive receive_from
  receive-held q = go q.in_hand q.entries
    where
      go :
          (hand es : List E)
          → held (receive_from (record q { in_hand = hand; entries = es }) hand es) ≡ hand ++ es
      go [] [] = refl
      go [] (e ∷ es) = refl
      go (h ∷ hs) es = refl

  retry-held : (q : BroadcastDelayQueue E) → held q ≡ (retry q).1 ++ held (retry q).0
  unfolding retry retry_hand
  retry-held q = go q.in_hand
    where
      go :
          (hand : List E)
          → hand ++ q.entries
            ≡ (retry_hand (record q { in_hand = hand }) hand).1
              ++ held (retry_hand (record q { in_hand = hand }) hand).0
      go [] = refl
      go (e ∷ es) = refl

  offer-held :
      (e : E) (q : BroadcastDelayQueue E) → held q ++ accepted_by (offers e) q ≡ held (offer e q).0
  unfolding offer
  offer-held e q = elim (Bool-cases (ltb (length q.entries) broadcast_delay_queue_capacity)) [
    | inl room ↦ rw room (append_assoc q.in_hand q.entries (e ∷ []))
    | inr none_left ↦ rw none_left (append-nil _)
  ]

  shut_down-held :
      (q : BroadcastDelayQueue E)
      → length q.in_hand ≤ 1
      → (held q ≡ (shut_down q).1) × (held (shut_down q).0 ≡ [])
  unfolding shut_down retry retry_hand
  shut_down-held q h = go q.in_hand h
    where
      after : List E → BroadcastDelayQueue E × List E
      after hand = retry_hand (record q { in_hand = hand }) hand

      go :
          (hand : List E)
          → length hand ≤ 1
          → (hand ++ q.entries ≡ (after hand).1 ++ (after hand).0.entries)
            × (held (drain_rest (after hand).0.entries (after hand).0) ≡ [])
      go [] h = (refl, drain_rest-held q.entries (after []).0)
      go (e ∷ []) h = (refl, drain_rest-held q.entries (after (e ∷ [])).0)
      go (e ∷ f ∷ es) h = absurd (omega (arith, h))

  step-held :
      (c : Call E) (q : BroadcastDelayQueue E)
      → length q.in_hand ≤ 1
      → held q ++ accepted_by c q ≡ (step c q).1 ++ held (step c q).0
  step-held (offers e) q h = offer-held e q
  step-held receives q h = append-nil _ ∙ sym (receive-held q)
  step-held retries q h = append-nil _ ∙ retry-held q
  step-held shuts_down q h =
      let (out, rest) = shut_down-held q h in
      append-nil _ ∙ out ∙ sym (append-nil _) ∙ ap (λ xs. (shut_down q).1 ++ xs) (sym rest)

  drain_rest-hand :
      (es : List E) (q : BroadcastDelayQueue E) → (drain_rest es q).in_hand ≡ q.in_hand
  unfolding drain_rest
  drain_rest-hand [] q = refl
  drain_rest-hand (e ∷ es) q =
      drain_rest-hand es (record q { drained = int64 (q.drained +ℤ pos 1) })

  receive-hand : (q : BroadcastDelayQueue E) → length q.in_hand ≤ 1 → length (receive q).in_hand ≤ 1
  unfolding receive receive_from
  receive-hand q h = go q.in_hand q.entries h
    where
      go :
          (hand es : List E)
          → length hand ≤ 1
          → length (receive_from (record q { in_hand = hand; entries = es }) hand es).in_hand ≤ 1
      go [] [] h = omega arith
      go [] (e ∷ es) h = omega arith
      go (f ∷ fs) es h = h

  retry-hand : (q : BroadcastDelayQueue E) → length q.in_hand ≤ 1 → length (retry q).0.in_hand ≤ 1
  unfolding retry retry_hand
  retry-hand q h = go q.in_hand h
    where
      go :
          (hand : List E)
          → length hand ≤ 1
          → length (retry_hand (record q { in_hand = hand }) hand).0.in_hand ≤ 1
      go [] h = omega arith
      go (e ∷ es) h = omega (arith, h)

  step-one_hand :
      (c : Call E) (q : BroadcastDelayQueue E)
      → length q.in_hand ≤ 1
      → length (step c q).0.in_hand ≤ 1
  unfolding offer shut_down
  step-one_hand (offers e) q h = ground (arith, h)
  step-one_hand receives q h = receive-hand q h
  step-one_hand retries q h = retry-hand q h
  step-one_hand shuts_down q h =
      rw (drain_rest-hand (retry q).0.entries (retry q).0) (retry-hand q h)

  -- Over any run of calls from a queue with at most one entry in hand, the entries that are
  -- retried, and those that are left, are the ones that were held and those that were accepted, in
  -- the same order.
  pub run-held :
      (cs : List (Call E)) (q : BroadcastDelayQueue E)
      → length q.in_hand ≤ 1
      → held q ++ accepted cs q ≡ retried cs q ++ held (run cs q)
  run-held [] q h = append-nil _
  run-held (c ∷ cs) q h =
      let q' = (step c q).0 in
      sym (append_assoc (held q) (accepted_by c q) (accepted cs q'))
      ∙ ap (λ xs. xs ++ accepted cs q') (step-held c q h)
      ∙ append_assoc (step c q).1 (held q') (accepted cs q')
      ∙ ap (λ xs. (step c q).1 ++ xs) (run-held cs q' (step-one_hand c q h))
      ∙ sym (append_assoc (step c q).1 (retried cs q') (held (run cs q')))
