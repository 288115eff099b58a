-- ===== src/Connection/Examples/SlowConsumers.antt =====
-- The theorem on connection/slow_consumer.go at a concrete input.
use go_wsc.Base.{
  ℕ, ◌%◌, ◌<◌, String, ◌≡◌, refl, ◌↔◌, inl, true, false, none, some, List, [], ◌∷◌, nat_eq,
  string_eq, pair_eq, one_of,
}
use go_wsc.Base.Int.{ℤ, pos}
use go_wsc.Connection.SlowConsumer.{Scanned, scan_once}
use go_wsc.Connection.SlowConsumer.Streaks.{row}
use go_wsc.Connection.SlowConsumer.Rounds.{ratios, states_after, scan_once-evicts}

abbrev with_ratio : String → ℤ → Scanned ℕ
with_ratio id ratio = record {
  id = id;
  client = record {
    pending_writes = pos 2;
    bound = true;
    closed = false;
    send_chan = some (record { queue = 4 ∷ 5 ∷ []; capacity = 2; shut = false });
    ctrl_ch = none;
    backlog_ratio = ratio;
  };
}

abbrev scanned : ℤ → List (Scanned ℕ)
scanned ratio = with_ratio "slow" ratio ∷ with_ratio "other" (pos 9500) ∷ []

abbrev earlier : List (ℤ × List (Scanned ℕ))
earlier = (pos 9100, scanned (pos 9100)) ∷ (pos 10000, scanned (pos 10000)) ∷ []

scan_once-evicts_example :
    one_of "slow"
        (scan_once true
          (scanned (pos 9000))
          (λ _. true)
          (pos 4)
          (states_after (λ _. true) earlier)).evicted
      ≡ true
    ↔ ((0 < row (pos 9000 ∷ ratios earlier)) × (row (pos 9000 ∷ ratios earlier) % 3 ≡ 0))
scan_once-evicts_example =
    scan_once-evicts (λ _. true) "slow" (pos 9000) (scanned (pos 9000)) (pos 4) earlier refl
      (inl (refl, refl, (refl, tt)))
      (inl (refl, refl, (refl, tt)), (inl (refl, refl, (refl, tt)), tt))
