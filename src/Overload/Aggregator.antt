-- ===== src/Overload/Aggregator.antt =====
-- overload/aggregator.go: the windows in which a group's messages are batched. A payload is a list of
-- bytes. The empty spare buffer that a window swaps with only saves an allocation, and is left out.
-- `offer_to` is the part of Offer under the lock of a shard, and `count_offer` what follows the unlock;
-- `offer` and `flush` are whole calls, one after the other, and Interleaving has calls that overlap.
pub mod Frames
pub mod Flush
pub mod Interleaving
use go_wsc.Base.{
  ℕ, ◌%◌, String, Bool, true, false, ◌||◌, Option, none, some, List, ◌∷◌, ◌++◌, str_eq,
  if◌then◌else◌, Eq, nat_eq, string_eq, pair_eq, length, replicate, [],
}
use go_wsc.Base.Int.{ℤ, pos, ◌+ℤ◌, ◌-ℤ◌, leb_ℤ, int64}
use go_wsc.Base.Map
use go_wsc.Base.Map.{Map}
use go_wsc.Base.Bytes.{fnv_string, fnv_offset_32}
use go_wsc.Base.Shards.{find, put}

abbrev pub aggregator_shard_count : ℕ
aggregator_shard_count = 16

abbrev pub default_aggregator_batch_size : ℤ
default_aggregator_batch_size = pos 64

abbrev pub default_aggregator_max_groups : ℤ
default_aggregator_max_groups = pos 65536

abbrev pub Payload : Type 0
Payload = List ℕ

-- The application's id and the group's id.
abbrev pub GroupKey : Type 0
GroupKey = String × String

abbrev pub key_eq : Eq GroupKey
key_eq = pair_eq

unfoldable pub shard_of : GroupKey → ℕ
unfolding fnv_string
shard_of k = fnv_string (fnv_string fnv_offset_32 k.0) k.1 % aggregator_shard_count

pub record AggregatorGroup : Type 0 where
  pub app_id : String
  pub group_id : String
  pub payloads : List Payload

pub record AggregatedBatch : Type 0 where
  pub app_id : String
  pub group_id : String
  pub frame : Payload

pub record MessageAggregator : Type 0 where
  pub shards : List (Map GroupKey AggregatorGroup)
  pub max_per_group : ℤ
  pub max_groups : ℤ
  pub group_count : ℤ
  pub offered : ℤ
  pub aggregated : ℤ
  pub batches : ℤ
  pub overflowed : ℤ

unfoldable pub new_message_aggregator : ℤ → ℤ → MessageAggregator
new_message_aggregator max_per_group max_groups = record {
  shards = replicate aggregator_shard_count [];
  max_per_group =
      if leb_ℤ max_per_group (pos 0) then default_aggregator_batch_size else max_per_group;
  max_groups = if leb_ℤ max_groups (pos 0) then default_aggregator_max_groups else max_groups;
  group_count = pos 0;
  offered = pos 0;
  aggregated = pos 0;
  batches = pos 0;
  overflowed = pos 0;
}

-- The payload joins the window of its group, if that is not full.
unfoldable pub append_to :
    MessageAggregator → GroupKey → AggregatorGroup → Payload → MessageAggregator × Bool
append_to a key group payload =
    if leb_ℤ a.max_per_group (pos (length group.payloads))
    then (record a { shards = put shard_of key group a.shards }, false)
    else (
      record a {
        shards =
            put shard_of key (record group { payloads = group.payloads ++ payload ∷ [] }) a.shards;
      },
      true,
    )

-- The part of Offer under the lock, with what the lookup of the group finds.
unfoldable pub offer_to :
    MessageAggregator → GroupKey → Option AggregatorGroup → Payload → MessageAggregator × Bool
unfolding append_to
offer_to a key (some group) payload = append_to a key group payload
offer_to a key none payload =
    if leb_ℤ a.max_groups a.group_count
    then (a, false)
    else append_to (record a { group_count = int64 (a.group_count +ℤ pos 1) }) key
        (record { app_id = key.0; group_id = key.1; payloads = [] }) payload

-- After the unlock.
unfoldable pub count_offer : MessageAggregator × Bool → MessageAggregator × Bool
count_offer (a, true) = (record a { offered = int64 (a.offered +ℤ pos 1) }, true)
count_offer (a, false) = (record a { overflowed = int64 (a.overflowed +ℤ pos 1) }, false)

unfoldable pub is_empty {ℓ} : {A : Type ℓ} → List A → Bool
is_empty [] = true
is_empty (x ∷ xs) = false

unfoldable pub offer : MessageAggregator → String → String → Payload → MessageAggregator × Bool
unfolding offer_to count_offer
offer a app_id group_id payload =
    if str_eq app_id "" || str_eq group_id "" || is_empty payload
    then (a, false)
    else count_offer
        (offer_to a (app_id, group_id) (find shard_of (app_id, group_id) a.shards) payload)

-- joinJSONPayloads: '[', the payloads with ',' between them, ']'.
unfoldable pub join_rest : List Payload → Payload
join_rest [] = []
join_rest (p ∷ ps) = (b',' ∷ p) ++ join_rest ps

unfoldable pub join_payloads : List Payload → Payload
unfolding join_rest
join_payloads [] = []
join_payloads (p ∷ ps) = p ++ join_rest ps

unfoldable pub join_json_payloads : List Payload → Payload
unfolding join_payloads
join_json_payloads ps = b'[' ∷ (join_payloads ps ++ b']' ∷ [])

-- What a pass over the groups carries: the batches so far, and the four counters that it changes.
pub record Pass : Type 0 where
  pub out : List AggregatedBatch
  pub group_count : ℤ
  pub aggregated : ℤ
  pub batches : ℤ

pub batch_of : AggregatorGroup → AggregatedBatch
batch_of g = record {
  app_id = g.app_id;
  group_id = g.group_id;
  frame = join_json_payloads g.payloads;
}

-- One group: an empty window is deleted, another is emptied and handed out.
pub leftover : AggregatorGroup → Option AggregatorGroup
leftover g = if is_empty g.payloads then none else some (record g { payloads = [] })

pub tally : AggregatorGroup → Pass → Pass
unfolding batch_of
tally g p =
    if is_empty g.payloads
    then record p { group_count = int64 (p.group_count -ℤ pos 1) }
    else record p {
      out = p.out ++ batch_of g ∷ [];
      aggregated = int64 (p.aggregated +ℤ pos (length g.payloads));
      batches = int64 (p.batches +ℤ pos 1);
    }

abbrev pub keep {ℓ} : {V : Type ℓ} → GroupKey → Option V → Map GroupKey V → Map GroupKey V
keep k none m = m
keep k (some v) m = (k, v) ∷ m

pub flush_shard : Map GroupKey AggregatorGroup → Pass → Map GroupKey AggregatorGroup × Pass
flush_shard [] p = ([], p)
flush_shard ((k, g) ∷ m) p =
    let (m', p') = flush_shard m (tally g p) in (keep k (leftover g) m', p')

pub flush_shards :
    List (Map GroupKey AggregatorGroup) → Pass → List (Map GroupKey AggregatorGroup) × Pass
flush_shards [] p = ([], p)
flush_shards (m ∷ ms) p =
    let (m', p') = flush_shard m p in let (ms', p'') = flush_shards ms p' in (m' ∷ ms', p'')

unfoldable pub flush : MessageAggregator → MessageAggregator × List AggregatedBatch
flush a =
    let (shards, p) = flush_shards a.shards (record {
      out = [];
      group_count = a.group_count;
      aggregated = a.aggregated;
      batches = a.batches;
    }) in
    (
      record a {
        shards = shards;
        group_count = p.group_count;
        aggregated = p.aggregated;
        batches = p.batches;
      },
      p.out,
    )
