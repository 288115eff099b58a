-- ===== src/Messaging/Examples.antt =====
-- The theorems on messaging/ at concrete inputs.
mod Acks
mod Deliveries
use go_wsc.Base.{
  some, ◌+◌, total, ℕ, ◌≡◌, refl, List, [], ◌∷◌, ◌++◌, arith, nat_eq, string_eq, pair_eq,
}
use go_wsc.Base.Map
use go_wsc.Messaging.ReplayGate.{ReplayGate, new_replay_gate, begin, hold, hold_locked}
use go_wsc.Messaging.ReplayGate.Live.{IsLive, begin-IsLive, hold-hold_locked}
use go_wsc.Messaging.ReplayGate.Threads.{
  World, Event, begins, holds, ends, makes, run, weight, arrives,
}
use go_wsc.Messaging.ReplayGate.Threads.Balance.{run-weight}
use go_wsc.Messaging.ReplayGate.Threads.Overtaking.{ends-made}

abbrev open_gate : ReplayGate ℕ
open_gate = new_replay_gate

open_gate-IsLive : IsLive open_gate
unfolding new_replay_gate
open_gate-IsLive = record { users = tt; counts = refl; small = omega arith }

abbrev idle : World ℕ
idle = record { gate = open_gate; hands = []; made = [] }

abbrev events : List (Event ℕ)
events =
    begins "u" ∷ holds "u" 1 ∷ holds "v" 2 ∷ holds "u" 3 ∷ ends "u" ∷ holds "u" 4 ∷ makes 4 ∷ []

run-weight_example :
    weight "u" (λ d. d) (run events idle)
    ≡ weight "u" (λ d. d) idle + total (arrives "u" (λ d. d)) events
run-weight_example = run-weight "u" (λ d. d) events idle

-- The user `u` is in replay, and nothing waits.
abbrev replaying : World ℕ
replaying = run (begins "u" ∷ []) idle

replaying-IsLive : IsLive replaying.gate
unfolding new_replay_gate
replaying-IsLive = begin-IsLive "u" open_gate open_gate-IsLive (omega arith)

replaying-u : Map.lookup "u" replaying.gate.pending ≡ some []
unfolding new_replay_gate begin Map.has Map.insert Map.lookup
replaying-u = refl

ends-made_example :
    ((run (holds "u" 1 ∷ holds "u" 3 ∷ ends "u" ∷ makes 2 ∷ makes 2 ∷ []) replaying).made
      ≡ ("u", 1) ∷ ("u", 3) ∷ [])
    × ((run
          (holds "u" 1 ∷ holds "u" 3 ∷ ends "u" ∷ holds "u" 4 ∷ makes 3 ∷ makes 2 ∷ makes 2 ∷ [])
          replaying).made
        ≡ ("u", 4) ∷ ("u", 1) ∷ ("u", 3) ∷ [])
ends-made_example =
    ends-made "u" [] (1 ∷ 3 ∷ []) replaying replaying-IsLive replaying-u (omega arith) 4
