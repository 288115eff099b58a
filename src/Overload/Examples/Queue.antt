-- ===== src/Overload/Examples/Queue.antt =====
-- The theorems on the delay queue at concrete inputs.
use go_wsc.Base.{ℕ, ◌≡◌, List, [], ◌∷◌, ◌++◌, arith, nat_eq, string_eq, pair_eq}
use go_wsc.Overload.DelayQueue.Order.{accepted}
use go_wsc.Base.Int.{pos}
use go_wsc.Overload.DelayQueue.{BroadcastDelayQueue}
use go_wsc.Overload.DelayQueue.Order.{
  Call, offers, receives, retries, shuts_down, held, run, retried, run-held,
}

abbrev one_waits : BroadcastDelayQueue ℕ
one_waits = record {
  entries = 5 ∷ [];
  in_hand = 4 ∷ [];
  queue_full = pos 0;
  enqueued = pos 5;
  drained = pos 3;
}

abbrev calls : List (Call ℕ)
calls = retries ∷ offers 6 ∷ receives ∷ shuts_down ∷ offers 7 ∷ []

run-held_example :
    held one_waits ++ accepted calls one_waits
    ≡ retried calls one_waits ++ held (run calls one_waits)
run-held_example = run-held calls one_waits (omega arith)
