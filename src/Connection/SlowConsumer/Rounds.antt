-- ===== src/Connection/SlowConsumer/Rounds.antt =====
-- connection/slow_consumer.go: the rounds that evict a client, whatever the other clients do.
use go_wsc.Base.{
  ◌%◌, ◌<◌, String, ◌≡◌, refl, sym, ap, ◌∙◌, ◌↔◌, Bool, true, List, [], ◌∷◌, nat_eq, string_eq,
  pair_eq, one_of,
}
use go_wsc.Base.Int.{ℤ, pos}
use go_wsc.Base.Map
use go_wsc.Base.Map.{Map}
use go_wsc.Connection.SlowConsumer.{States, govern, Scanned, Round, scan_all, scan_once}
use go_wsc.Connection.SlowConsumer.Streaks.{after, measure_of, row, measure_of-evicts}
use go_wsc.Connection.SlowConsumer.Scans.{is_evicts, evicts_iff, clean-lookup, scan_all-Once, Once}

measure_of-govern :
    (ratio : ℤ) (older : List ℤ) → measure_of (ratio ∷ older) ≡ (govern ratio (after older)).1
unfolding measure_of
measure_of-govern ratio older = refl

module _ {ℓ} {D : Type ℓ} where
  -- The rounds of a scanner, the newest first: each has a ratio of the client and the clients, and leaves
  -- its states to the next.
  pub states_after : (String → Bool) → List (ℤ × List (Scanned D)) → States
  unfolding scan_once
  states_after exists [] = []
  states_after exists ((ratio, scs) ∷ older) =
      (scan_once true scs exists (pos 0) (states_after exists older)).states

  -- In each round the client is there once, with its ratio.
  abbrev pub Present : String → List (ℤ × List (Scanned D)) → Type 0
  Present id [] = Unit
  Present id ((ratio, scs) ∷ older) = Once id ratio scs × Present id older

  abbrev pub ratios : List (ℤ × List (Scanned D)) → List ℤ
  ratios [] = []
  ratios ((ratio, scs) ∷ older) = ratio ∷ ratios older

  states_after-lookup :
      (exists : String → Bool) (id : String) (rounds : List (ℤ × List (Scanned D)))
      → exists id ≡ true
      → Present id rounds
      → Map.lookup id (states_after exists rounds) ≡ after (ratios rounds)
  unfolding states_after scan_once after Map.lookup
  states_after-lookup exists id [] e p = refl
  states_after-lookup exists id ((ratio, scs) ∷ older) e p =
      let start : Round D = record {
        clients = [];
        counter = pos 0;
        states = states_after exists older;
        evicted = [];
      } in
      clean-lookup exists id (scan_all true scs start).states e
      ∙ (scan_all-Once id ratio scs start p.0).0
      ∙ ap (λ o. (govern ratio o).0) (states_after-lookup exists id older e p.1)

  -- Over rounds of the scanner with a hook, in each of which a client is there once, and which the
  -- registry still has after each, a round evicts the client exactly when its slow rounds in a row,
  -- up to that one, are three or a multiple of it, whatever the other clients do.
  pub scan_once-evicts :
      (exists : String → Bool) (id : String) (ratio : ℤ) (scs : List (Scanned D)) (counter : ℤ)
      (older : List (ℤ × List (Scanned D)))
      → exists id ≡ true
      → Once id ratio scs
      → Present id older
      → one_of id (scan_once true scs exists counter (states_after exists older)).evicted ≡ true
        ↔ ((0 < row (ratio ∷ ratios older)) × (row (ratio ∷ ratios older) % 3 ≡ 0))
  unfolding scan_once
  scan_once-evicts exists id ratio scs counter older e once present =
      let start : Round D = record {
        clients = [];
        counter = counter;
        states = states_after exists older;
        evicted = [];
      } in
      let rounds : List ℤ = ratio ∷ ratios older in
      let listed : one_of id (scan_all true scs start).evicted ≡ is_evicts (measure_of rounds) =
        (scan_all-Once id ratio scs start once).1
        ∙ ap (λ o. is_evicts (govern ratio o).1) (states_after-lookup exists id older e present)
        ∙ ap is_evicts (sym (measure_of-govern ratio (ratios older))) in
      (
        λ t. (measure_of-evicts rounds).0 ((evicts_iff (measure_of rounds)).0 (sym listed ∙ t)),
        λ t. listed ∙ (evicts_iff (measure_of rounds)).1 ((measure_of-evicts rounds).1 t),
      )
