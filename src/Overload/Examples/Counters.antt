-- ===== src/Overload/Examples/Counters.antt =====
-- The theorem on overload/overload_metrics.go at a concrete input.
use go_wsc.Base.{ℕ, ◌≡◌, ◌↔◌, true, List, [], ◌∷◌, arith, nat_eq, string_eq, pair_eq}
use go_wsc.Models.HubMessage.{standard, guaranteed}
use go_wsc.Overload.Admission.{verdict_delay}
use go_wsc.Overload.Metrics.{zero_metrics, delivery_funnel_consistent}
use go_wsc.Overload.Metrics.Recordings.{Recording, admits, delivers, falls_back, drops, judges, run}
use go_wsc.Overload.Metrics.Funnel.{Balances, delivery_funnel_consistent-run}

abbrev recordings : List (ℕ × Recording)
recordings =
    (5, admits standard)
    ∷ (12, admits guaranteed)
    ∷ (0, judges verdict_delay)
    ∷ (7, delivers standard)
    ∷ (3, falls_back guaranteed)
    ∷ (3, drops)
    ∷ []

delivery_funnel_consistent-run_example :
    (delivery_funnel_consistent (run recordings zero_metrics)).0 ≡ true
    ↔ (Balances recordings 0 × Balances recordings 2)
delivery_funnel_consistent-run_example = delivery_funnel_consistent-run recordings (omega arith)
