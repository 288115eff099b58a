-- ===== src/Models/Examples/Clients.antt =====
-- The theorems on a connection's counters at concrete inputs.
use go_wsc.Base.{
  ℕ, ◌≡◌, refl, true, false, none, some, List, [], ◌∷◌, map, arith, nat_eq, string_eq, pair_eq,
  total,
}
use go_wsc.Base.Int.{pos, negsuc, ◌+ℤ◌, ◌-ℤ◌}
use go_wsc.Models.Client.{Client, try_send}
use go_wsc.Models.Client.Sending.{IsCounted, Ends, try_send-Ends}
use go_wsc.Models.Client.Interleaving.{
  World, adding, subtracting, Run, start, next, reserves, counts, takes, counts_off, IsBalanced,
}
use go_wsc.Models.Client.Balance.{run-IsBalanced, run-settled}

-- A client with one of two places taken; another client has three frames pending.
abbrev client : Client ℕ
client = record {
  pending_writes = pos 1;
  bound = true;
  closed = false;
  send_chan = some (record { queue = 7 ∷ []; capacity = 2; shut = false });
  ctrl_ch = none;
  backlog_ratio = pos 0;
}

client-IsCounted : IsCounted 1 3 (client, pos 4)
client-IsCounted = record { bound = refl; own = refl; shared = refl; small = omega arith }

try_send-Ends_example : Ends 8 client.send_chan 1 3 (try_send 8 (client, pos 4))
try_send-Ends_example = try_send-Ends 8 1 3 (client, pos 4) client-IsCounted (omega arith)

-- A frame is reserved and taken off again before it is counted: the shared counter is -1 in between.
abbrev w0 : World
w0 = record { pendings = pos 0 ∷ []; counter = pos 0; threads = [] }

abbrev w1 : World
w1 = record { pendings = pos 1 ∷ []; counter = pos 0; threads = adding ∷ [] }

abbrev w2 : World
w2 = record { pendings = pos 0 ∷ []; counter = pos 0; threads = subtracting 1 ∷ adding ∷ [] }

abbrev w3 : World
w3 = record { pendings = pos 0 ∷ []; counter = negsuc 0; threads = adding ∷ [] }

w0-IsBalanced : IsBalanced 0 w0
unfolding ◌-ℤ◌
w0-IsBalanced = record {
  owned = 0 ∷ [];
  reads = refl;
  balance = refl;
  small = omega arith;
  few = omega arith;
}

w0-w3 : Run w0 3 w3
unfolding ◌-ℤ◌ ◌+ℤ◌
w0-w3 =
    next w0 w2 w3 2
      (next w0 w1 w2 1 (next w0 w0 w1 0 (start w0) (reserves 0 w0 (omega arith)))
        (takes 0 1 1 w1 (omega arith) refl (omega arith)))
      (counts_off 1 w2 [] (adding ∷ []) refl)

run-IsBalanced_example : IsBalanced 3 w3
run-IsBalanced_example = run-IsBalanced w0 3 w3 w0-IsBalanced (omega arith) w0-w3

w3-w0 : Run w0 4 w0
unfolding ◌+ℤ◌
w3-w0 = next w0 w3 w0 3 w0-w3 (counts w3 [] [] refl)

run-settled_example :
    (owned : List ℕ) × (pos 0 ∷ [] ≡ map pos owned) × (pos 0 ≡ pos (total (λ x. x) owned))
run-settled_example = run-settled w0 4 w0 w0-IsBalanced (omega arith) w3-w0 refl
