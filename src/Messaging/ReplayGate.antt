-- ===== src/Messaging/ReplayGate.antt =====
-- messaging/replay_gate.go: live messages wait while a user's offline messages are replayed. A delivery is
-- a value. `hold` and `end_locked` are what the source does up to the unlock, and their result is the
-- deliveries that the caller has in hand then, which it makes afterwards, one by one and in their
-- order: Threads has the callers, whose deliveries meet in any order.
pub mod Live
pub mod Threads
use go_wsc.Base.{
  ℕ, String, Bool, true, false, not, Option, none, some, List, ◌∷◌, ◌++◌, ltb, if◌then◌else◌,
  nat_eq, string_eq, pair_eq, length, [],
}
use go_wsc.Base.Int.{ℤ, pos, ◌+ℤ◌, ◌-ℤ◌, eqb_ℤ, int64}
use go_wsc.Base.Map
use go_wsc.Base.Map.{Map}

abbrev pub max_replay_holdout : ℕ
max_replay_holdout = 1024

module _ {ℓ} where
  pub record ReplayGate (D : Type ℓ) : Type ℓ where
    pub pending : Map String (List D)
    pub live : ℤ

  pub record Manager (D : Type ℓ) : Type ℓ where
    pub replay_inflight : Map {0, 0} String Unit
    pub replay_gate : Option (ReplayGate D)

module _ {ℓ} {D : Type ℓ} where
  unfoldable pub new_replay_gate : ReplayGate D
  new_replay_gate = record { pending = []; live = pos 0 }

  unfoldable pub begin : String → ReplayGate D → ReplayGate D
  unfolding Map.has Map.insert
  begin user g =
      if Map.has user g.pending
      then g
      else record { pending = Map.insert user [] g.pending; live = int64 (g.live +ℤ pos 1) }

  -- The gate, whether the delivery waits, and what is in hand.
  pub hold_queue : String → D → ReplayGate D → Option (List D) → ReplayGate D × Bool × List D
  hold_queue user deliver g none = (g, false, deliver ∷ [])
  hold_queue user deliver g (some queue) =
      if ltb (length queue) max_replay_holdout
      then (record g { pending = Map.insert user (queue ++ deliver ∷ []) g.pending }, true, [])
      else (g, false, deliver ∷ [])

  unfoldable pub hold_locked : String → D → ReplayGate D → ReplayGate D × Bool × List D
  unfolding hold_queue
  hold_locked user deliver g = hold_queue user deliver g (Map.lookup user g.pending)

  unfoldable pub hold : String → D → ReplayGate D → ReplayGate D × Bool × List D
  unfolding hold_locked
  hold user deliver g =
      if eqb_ℤ g.live (pos 0)
      then (g, false, deliver ∷ [])
      else if not (Map.has user g.pending)
      then (g, false, deliver ∷ [])
      else hold_locked user deliver g

  unfoldable pub holding : String → ReplayGate D → Bool
  holding user g = if eqb_ℤ g.live (pos 0) then false else Map.has user g.pending

  pub end_queue : String → ReplayGate D → Option (List D) → ReplayGate D × List D
  end_queue user g none = (g, [])
  end_queue user g (some queue) =
      (record { pending = Map.erase user g.pending; live = int64 (g.live -ℤ pos 1) }, queue)

  -- The part of `end` under the lock: the mark goes before any held delivery is made.
  unfoldable pub end_locked : String → ReplayGate D → ReplayGate D × List D
  unfolding end_queue
  end_locked user g = end_queue user g (Map.lookup user g.pending)

  -- `LoadOrStore` of the user's mark, and the gate, if there is one.
  unfoldable pub try_begin_user_replay : String → Manager D → Manager D × Bool
  unfolding begin
  try_begin_user_replay user m = if Map.has user m.replay_inflight then (m, false) else (
    record {
      replay_inflight = Map.insert user tt m.replay_inflight;
      replay_gate = elim m.replay_gate [ none ↦ none | some g ↦ some (begin user g) ];
    },
    true,
  )

  end_gate : String → Map {0, 0} String Unit → Option (ReplayGate D) → Manager D × List D
  unfolding end_locked
  end_gate user marks none = (record { replay_inflight = marks; replay_gate = none }, [])
  end_gate user marks (some g) = (
    record { replay_inflight = marks; replay_gate = some (end_locked user g).0 },
    (end_locked user g).1,
  )

  unfoldable pub end_user_replay : String → Manager D → Manager D × List D
  unfolding end_gate
  end_user_replay user m = end_gate user (Map.erase user m.replay_inflight) m.replay_gate

  hold_gate : String → D → Manager D → Option (ReplayGate D) → Manager D × List D
  unfolding hold
  hold_gate user deliver m none = (m, deliver ∷ [])
  hold_gate user deliver m (some g) =
      let (g', held, out) = hold user deliver g in (record m { replay_gate = some g' }, out)

  unfoldable pub hold_user_delivery : String → D → Manager D → Manager D × List D
  unfolding hold_gate
  hold_user_delivery user deliver m = hold_gate user deliver m m.replay_gate

  unfoldable pub holding_user_delivery : String → Manager D → Bool
  unfolding holding
  holding_user_delivery user m = elim m.replay_gate [ none ↦ false | some g ↦ holding user g ]

  unfoldable pub with_replay_gate : Option (ReplayGate D) → Manager D → Manager D
  with_replay_gate g m = record m { replay_gate = g }
