-- ===== src/Messaging/ReplayGate/Threads/Balance.antt =====
-- messaging/replay_gate.go: the deliveries for a user over steps in any order.
use go_wsc.Base.{
  ℕ, zero, suc, ◌+◌, String, ◌≡◌, refl, inl, inr, List, [], ◌∷◌, ◌++◌, arith, ltb, Bool-cases,
  Option-cases, nat_eq, string_eq, pair_eq, ◌==◌, length, total, total-append,
}
use go_wsc.Base.Int.{pos, eqb_ℤ}
use go_wsc.Base.Map
use go_wsc.Base.Map.{Map}
use go_wsc.Messaging.ReplayGate.{
  ReplayGate, begin, hold, hold_locked, hold_queue, end_locked, end_queue, max_replay_holdout,
}
use go_wsc.Messaging.ReplayGate.Threads.{
  World, Event, begins, holds, ends, makes, make_at, step, run, waiting, share, arrives, in_hand,
  is_made, weight,
}

module _ {ℓ} {D : Type ℓ} (user : String) (f : D → ℕ) where
  abbrev waits : ReplayGate D → ℕ
  waits g = total f (waiting user g)

  begin-waits : (other : String) (g : ReplayGate D) → waits (begin other g) ≡ waits g
  unfolding begin Map.has
  begin-waits other g = elim (Option-cases (Map.lookup other g.pending)) [
    | inr (queue, p) ↦ rw (Map.has, p) refl
    | inl a ↦
        rw (Map.has, a)
          (rw (Map.lookup-insert other user [] g.pending) (elim (Bool-cases (other == user)) [
            | inl same ↦ rw same (rw (← (string_eq.agrees_iff other user).0 same) (rw a refl))
            | inr apart ↦ rw apart refl
          ]))
  ]

  end_locked-waits :
      (other : String) (g : ReplayGate D)
      → waits g ≡ share user f other (total f (end_locked other g).1) + waits (end_locked other g).0
  unfolding end_locked end_queue
  end_locked-waits other g = elim (Option-cases (Map.lookup other g.pending)) [
    | inl a ↦ rw a (elim (Bool-cases (other == user)) [
      | inl same ↦ rw same (omega arith)
      | inr apart ↦ rw apart (omega arith)
    ])
    | inr (queue, p) ↦ rw p (
        rw (Map.lookup-erase other user g.pending) (elim (Bool-cases (other == user)) [
          | inl same ↦
              rw same (rw (← (string_eq.agrees_iff other user).0 same) (rw p (omega arith)))
          | inr apart ↦ rw apart (omega arith)
        ]))
  ]

  -- A delivery that is in hand at once.
  direct :
      (other : String) (deliver : D) (g : ReplayGate D)
      → waits g + share user f other (f deliver)
        ≡ share user f other (total f (deliver ∷ [])) + waits g
  direct other deliver g = ground arith

  hold_locked-waits :
      (other : String) (deliver : D) (g : ReplayGate D)
      → waits g + share user f other (f deliver)
        ≡ share user f other (total f (hold_locked other deliver g).2)
          + waits (hold_locked other deliver g).0
  unfolding hold_locked hold_queue
  hold_locked-waits other deliver g = elim (Option-cases (Map.lookup other g.pending)) [
    | inl a ↦ rw a (direct other deliver g)
    | inr (queue, p) ↦ rw p (elim (Bool-cases (ltb (length queue) max_replay_holdout)) [
      | inr full ↦ rw full (direct other deliver g)
      | inl room ↦
          rw (room, Map.lookup-insert other user (queue ++ deliver ∷ []) g.pending)
            (elim (Bool-cases (other == user)) [
              | inl same ↦
                  let e = (string_eq.agrees_iff other user).0 same in
                  rw same (rw (← e) (rw p (omega (arith, total-append f queue (deliver ∷ [])))))
              | inr apart ↦ rw apart (omega arith)
            ])
    ])
  ]

  hold-waits :
      (other : String) (deliver : D) (g : ReplayGate D)
      → waits g + share user f other (f deliver)
        ≡ share user f other (total f (hold other deliver g).2) + waits (hold other deliver g).0
  unfolding hold
  hold-waits other deliver g = elim (Bool-cases (eqb_ℤ g.live (pos 0))) [
    | inl idle ↦ rw idle (direct other deliver g)
    | inr busy ↦ rw busy (elim (Bool-cases (Map.has other g.pending)) [
      | inl replaying ↦ rw replaying (hold_locked-waits other deliver g)
      | inr through ↦ rw through (direct other deliver g)
    ])
  ]

  make_at-share :
      (i : ℕ) (hands : List (String × List D))
      → total (in_hand user f) hands
        ≡ total (in_hand user f) (make_at i hands).0 + total (is_made user f) (make_at i hands).1
  make_at-share zero [] = refl
  make_at-share (suc i) [] = refl
  make_at-share zero ((other, []) ∷ hands) = omega arith
  make_at-share zero ((other, deliver ∷ queue) ∷ hands) = ground arith
  make_at-share (suc i) (hand ∷ hands) = omega (arith, make_at-share i hands)

  step-weight :
      (e : Event D) (w : World D) → weight user f (step e w) ≡ weight user f w + arrives user f e
  step-weight (begins other) w = omega (arith, begin-waits other w.gate)
  step-weight (holds other deliver) w = omega (
    arith,
    hold-waits other deliver w.gate,
    total-append (in_hand user f) w.hands ((other, (hold other deliver w.gate).2) ∷ []),
  )
  step-weight (ends other) w = omega (
    arith,
    end_locked-waits other w.gate,
    total-append (in_hand user f) w.hands ((other, (end_locked other w.gate).1) ∷ []),
  )
  step-weight (makes i) w =
      omega
        (arith, make_at-share i w.hands, total-append (is_made user f) w.made (make_at i w.hands).1)

  -- Over any steps of any callers in any order, also when more than 1024 deliveries wait: for each
  -- user, and each weight of the deliveries, the weight of those that wait, are in the hand of a
  -- caller, or are made, is what it was before and the weight of those that arrived. So no delivery
  -- is lost or doubled.
  pub run-weight :
      (es : List (Event D)) (w : World D)
      → weight user f (run es w) ≡ weight user f w + total (arrives user f) es
  run-weight [] w = omega arith
  run-weight (e ∷ es) w = omega (arith, run-weight es (step e w), step-weight e w)
