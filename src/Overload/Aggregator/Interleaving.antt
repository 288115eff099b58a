-- ===== src/Overload/Aggregator/Interleaving.antt =====
-- overload/aggregator.go: the steps that calls of Offer and Flush make under the lock of a shard, in any
-- order. An offer reads `groupCount`, which calls on other shards change meanwhile: whatever it reads
-- is an argument of its step. A flush takes the shards one after the other, and the other calls
-- come between.
pub mod Kept
pub mod Accepted
pub mod Conserved
pub mod Refines
use go_wsc.Base.{
  ℕ, String, List, [], ◌∷◌, ◌++◌, Option, none, some, Bool, true, false, if◌then◌else◌, ◌==◌,
  get_or, set, nat_eq, string_eq, pair_eq, replicate,
}
use go_wsc.Base.Int.{ℤ, pos}
use go_wsc.Base.Map.{Map}
use go_wsc.Base.Shards.{find}
use go_wsc.Overload.Aggregator.{
  MessageAggregator, AggregatorGroup, AggregatedBatch, GroupKey, Payload, Pass, shard_of, offer,
  flush_shard, aggregator_shard_count,
}

-- The shards, the batches that the flushes have handed out, and the messages that the offers have
-- accepted, in their order.
pub record World : Type 0 where
  pub shards : List (Map GroupKey AggregatorGroup)
  pub out : List AggregatedBatch
  pub accepted : List (GroupKey × Payload)

pub data Event : Type 0 where
  offers : (seen : ℤ) → (app_id group_id : String) → Payload → Event
  flushes : (shard : ℕ) → Event

abbrev pub no_pass : Pass
no_pass = record { out = []; group_count = pos 0; aggregated = pos 0; batches = pos 0 }

abbrev pub accept : Bool → GroupKey → Payload → List (GroupKey × Payload)
accept true k p = (k, p) ∷ []
accept false k p = []

-- `limits` has the two limits of the aggregator.
abbrev pub offer_at :
    MessageAggregator → ℤ → String → String → Payload → World → MessageAggregator × Bool
offer_at limits seen app_id group_id p w =
    offer (record limits { shards = w.shards; group_count = seen }) app_id group_id p

abbrev pub step : MessageAggregator → Event → World → World
step limits (offers seen app_id group_id p) w = record {
  shards = (offer_at limits seen app_id group_id p w).0.shards;
  out = w.out;
  accepted = w.accepted ++ accept (offer_at limits seen app_id group_id p w).1 (app_id, group_id) p;
}
step limits (flushes i) w = record {
  shards = set w.shards i (flush_shard (get_or w.shards i []) no_pass).0;
  out = w.out ++ (flush_shard (get_or w.shards i []) no_pass).1.out;
  accepted = w.accepted;
}

abbrev pub run : MessageAggregator → List Event → World → World
run limits [] w = w
run limits (e ∷ es) w = run limits es (step limits e w)

abbrev pub nothing_offered : World
nothing_offered = record { shards = replicate 16 []; out = []; accepted = [] }

-- The payloads accepted for a key.
abbrev pub accepted_for : GroupKey → List (GroupKey × Payload) → List Payload
accepted_for k [] = []
accepted_for k ((j, p) ∷ xs) = if j == k then p ∷ accepted_for k xs else accepted_for k xs

abbrev pub payloads_of : Option AggregatorGroup → List Payload
payloads_of none = []
payloads_of (some g) = g.payloads

-- The payloads that wait under a key.
abbrev pub waiting : GroupKey → World → List Payload
waiting k w = payloads_of (find shard_of k w.shards)
