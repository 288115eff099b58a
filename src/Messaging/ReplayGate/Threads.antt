-- ===== src/Messaging/ReplayGate/Threads.antt =====
-- messaging/replay_gate.go: the calls of many callers, in steps. A call changes the gate in one step, up
-- to its unlock (for `hold`, the test or the lock that decides it), and then makes what it has in hand, one delivery in a step, between those of the
-- other callers.
pub mod Balance
pub mod Overtaking
use go_wsc.Base.{
  ℕ, zero, suc, ◌+◌, String, List, [], ◌∷◌, ◌++◌, if◌then◌else◌, nat_eq, string_eq, pair_eq, ◌==◌,
  Option, none, some, total,
}
use go_wsc.Base.Map
use go_wsc.Base.Map.{Map}
use go_wsc.Messaging.ReplayGate.{ReplayGate, begin, hold, end_locked}

module _ {ℓ} where
  -- The gate, what each caller has in hand, and the deliveries made so far, each with its user.
  pub record World (D : Type ℓ) : Type ℓ where
    pub gate : ReplayGate D
    pub hands : List (String × List D)
    pub made : List (String × D)

  -- `makes i`: the caller `i`, counted from 0, makes the next of what it has in hand.
  pub data Event (D : Type ℓ) : Type ℓ where
    begins : String → Event D
    holds : String → D → Event D
    ends : String → Event D
    makes : ℕ → Event D

module _ {ℓ} {D : Type ℓ} where
  -- What is left in hand, and what is made.
  abbrev pub make_at : ℕ → List (String × List D) → List (String × List D) × List (String × D)
  make_at i [] = ([], [])
  make_at zero ((user, []) ∷ hands) = ((user, []) ∷ hands, [])
  make_at zero ((user, deliver ∷ queue) ∷ hands) = ((user, queue) ∷ hands, (user, deliver) ∷ [])
  make_at (suc i) (hand ∷ hands) = (hand ∷ (make_at i hands).0, (make_at i hands).1)

  abbrev pub take_up : String → ReplayGate D → List D → World D → World D
  take_up user gate queue w = record w { gate = gate; hands = w.hands ++ (user, queue) ∷ [] }

  abbrev pub step : Event D → World D → World D
  step (begins user) w = record w { gate = begin user w.gate }
  step (holds user deliver) w =
      take_up user (hold user deliver w.gate).0 (hold user deliver w.gate).2 w
  step (ends user) w = take_up user (end_locked user w.gate).0 (end_locked user w.gate).1 w
  step (makes i) w = record w {
    hands = (make_at i w.hands).0;
    made = w.made ++ (make_at i w.hands).1;
  }

  abbrev pub run : List (Event D) → World D → World D
  run [] w = w
  run (e ∷ es) w = run es (step e w)

  abbrev pub or_empty : Option (List D) → List D
  or_empty none = []
  or_empty (some queue) = queue

  -- What waits for a user.
  abbrev pub waiting : String → ReplayGate D → List D
  waiting user g = or_empty (Map.lookup user g.pending)

module _ {ℓ} {D : Type ℓ} (user : String) (f : D → ℕ) where
  -- A weight counts for one user only.
  abbrev pub share : String → ℕ → ℕ
  share other n = if other == user then n else 0

  abbrev pub arrives : Event D → ℕ
  arrives (begins other) = 0
  arrives (holds other deliver) = share other (f deliver)
  arrives (ends other) = 0
  arrives (makes i) = 0

  abbrev pub in_hand : String × List D → ℕ
  in_hand (other, queue) = share other (total f queue)

  abbrev pub is_made : String × D → ℕ
  is_made (other, deliver) = share other (f deliver)

  -- The weight of all deliveries for the user: those that wait, are in hand, or are made.
  abbrev pub weight : World D → ℕ
  weight w = total f (waiting user w.gate) + total in_hand w.hands + total is_made w.made
