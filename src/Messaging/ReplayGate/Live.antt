-- ===== src/Messaging/ReplayGate/Live.antt =====
-- messaging/replay_gate.go: the counter that lets the gate stand open.
use go_wsc.Base.{
  ℕ, suc, ◌^◌, ◌<◌, String, ◌≡◌, refl, sym, ap, ◌∙◌, inl, inr, false, none, some, List, [], ◌∷◌,
  ◌++◌, arith, ltb, eqb, Bool-cases, Option-cases, nat_eq, string_eq, pair_eq, length,
}
use go_wsc.Base.Int.{ℤ, pos, ◌+ℤ◌, ◌-ℤ◌, eqb_ℤ, int64}
use go_wsc.Base.Map
use go_wsc.Base.Map.{Map}
use go_wsc.Messaging.ReplayGate.{
  ReplayGate, begin, hold, hold_locked, hold_queue, end_locked, end_queue, holding,
  max_replay_holdout,
}

add_live : (z : ℤ) (n : ℕ) → z ≡ pos n → suc n < 2 ^ 63 → int64 (z +ℤ pos 1) ≡ pos (suc n)
unfolding ◌+ℤ◌
add_live z n e h = rw e (ground arith)

drop_live : (z : ℤ) (n : ℕ) → z ≡ pos (suc n) → suc n < 2 ^ 63 → int64 (z -ℤ pos 1) ≡ pos n
unfolding ◌-ℤ◌
drop_live z n e h = rw e (ground arith)

live_test : (z : ℤ) (n : ℕ) → z ≡ pos n → eqb_ℤ z (pos 0) ≡ eqb n 0
live_test z n e = rw e (ground arith)

module _ {ℓ} {D : Type ℓ} where
  -- The counter counts the users in replay, each of whom has one queue.
  pub record IsLive (g : ReplayGate D) : Type ℓ where
    pub users : Map.IsMap g.pending
    pub counts : g.live ≡ pos (length g.pending)
    pub small : length g.pending < 2 ^ 63

  pub begin-IsLive :
      (user : String) (g : ReplayGate D)
      → IsLive g
      → suc (length g.pending) < 2 ^ 63
      → IsLive (begin user g)
  unfolding begin
  begin-IsLive user g l w = elim (Bool-cases (Map.has user g.pending)) [
    | inl old ↦ rw old l
    | inr new ↦
        let more : length (Map.insert user [] g.pending) ≡ suc (length g.pending) =
          rw new at (Map.length-insert user [] g.pending) in
        rw new (record {
          users = Map.insert-IsMap user [] g.pending l.users;
          counts = add_live g.live (length g.pending) l.counts w ∙ ap pos (sym more);
          small = rw more w;
        })
  ]

  -- A queue is put in the place of another.
  requeue-IsLive :
      (user : String) (queue old : List D) (g : ReplayGate D)
      → IsLive g
      → Map.lookup user g.pending ≡ some old
      → IsLive (record g { pending = Map.insert user queue g.pending })
  unfolding Map.has
  requeue-IsLive user queue old g l p =
      let same : length (Map.insert user queue g.pending) ≡ length g.pending =
        ground (arith, p, Map.length-insert user queue g.pending) in
      record {
        users = Map.insert-IsMap user queue g.pending l.users;
        counts = l.counts ∙ ap pos (sym same);
        small = rw same l.small;
      }

  pub hold_locked-IsLive :
      (user : String) (deliver : D) (g : ReplayGate D)
      → IsLive g
      → IsLive (hold_locked user deliver g).0
  unfolding hold_locked hold_queue
  hold_locked-IsLive user deliver g l = elim (Option-cases (Map.lookup user g.pending)) [
    | inl a ↦ rw a l
    | inr (queue, p) ↦ rw p (elim (Bool-cases (ltb (length queue) max_replay_holdout)) [
      | inl room ↦ rw room (requeue-IsLive user (queue ++ deliver ∷ []) queue g l p)
      | inr full ↦ rw full l
    ])
  ]

  pub end_locked-IsLive :
      (user : String) (g : ReplayGate D) → IsLive g → IsLive (end_locked user g).0
  unfolding end_locked end_queue Map.has
  end_locked-IsLive user g l = elim (Option-cases (Map.lookup user g.pending)) [
    | inl a ↦ rw a l
    | inr (queue, p) ↦
        let fewer : length g.pending ≡ suc (length (Map.erase user g.pending)) =
          ground (arith, p, Map.length-erase user g.pending l.users) in
        rw p (record {
          users = Map.erase-IsMap user g.pending l.users;
          counts =
              drop_live g.live (length (Map.erase user g.pending)) (l.counts ∙ ap pos fewer)
                (rw fewer at l.small);
          small = omega (arith, fewer, l.small);
        })
  ]

  no_users : (m : Map String (List D)) → 0 ≡ length m → (user : String) → Map.lookup user m ≡ none
  unfolding Map.lookup
  no_users [] h user = refl
  no_users (x ∷ m) h user = absurd (omega arith)

  closed_gate :
      (user : String) (queue : List D) (g : ReplayGate D)
      → IsLive g
      → Map.lookup user g.pending ≡ some queue
      → eqb_ℤ g.live (pos 0) ≡ false
  closed_gate user queue g l p = elim (Bool-cases (eqb (length g.pending) 0)) [
    | inl e ↦ absurd (cc (p, no_users g.pending (ground (arith, e)) user))
    | inr o ↦ live_test g.live (length g.pending) l.counts ∙ o
  ]

  -- While the counter counts the users in replay, the two tests that hold makes before it takes the
  -- lock decide nothing: it does what the part under the lock does by itself.
  pub hold-hold_locked :
      (user : String) (deliver : D) (g : ReplayGate D)
      → IsLive g
      → hold user deliver g ≡ hold_locked user deliver g
  unfolding hold hold_locked hold_queue Map.has
  hold-hold_locked user deliver g l = elim (Option-cases (Map.lookup user g.pending)) [
    | inl a ↦ rw a (ground arith)
    | inr (queue, p) ↦ rw (closed_gate user queue g l p, Map.has, p) refl
  ]

  -- So does the test whether a user's deliveries wait.
  pub holding-has :
      (user : String) (g : ReplayGate D) → IsLive g → holding user g ≡ Map.has user g.pending
  unfolding holding Map.has
  holding-has user g l = elim (Option-cases (Map.lookup user g.pending)) [
    | inl a ↦ rw (Map.has, a) (ground arith)
    | inr (queue, p) ↦ rw (closed_gate user queue g l p) refl
  ]
