-- ===== src/Overload/Metrics.antt =====
-- overload/overload_metrics.go: the counters of the deliveries. A hot counter is spread over eight cells,
-- and a write takes the cell that a random number names, which is an argument.
pub mod Tally
pub mod Recordings
pub mod Funnel
pub mod Stats
use go_wsc.Base.{
  ℕ, ◌%◌, String, Bool, List, [], ◌∷◌, ◌++◌, eqb, if◌then◌else◌, nat_eq, string_eq, pair_eq, length,
  get_or, set, replicate,
}
use go_wsc.Base.Int.{ℤ, pos, ◌+ℤ◌, ◌-ℤ◌, eqb_ℤ, int64}
use go_wsc.Base.Map.{Map}
use go_wsc.Models.HubMessage.{DeliveryGuarantee, standard, ephemeral, guaranteed}
use go_wsc.Overload.Admission.{AdmitVerdict, verdict_admit, verdict_delay, verdict_offline}

abbrev pub hot_stripes : ℕ
hot_stripes = 8

abbrev pub HotCounter : Type 0
HotCounter = List ℤ

abbrev pub zero_counter : HotCounter
zero_counter = replicate hot_stripes (pos 0)

-- With a random number.
unfoldable pub add : ℕ → ℤ → HotCounter → HotCounter
unfolding ◌+ℤ◌
add random delta c = let i = random % hot_stripes in set c i (int64 (get_or c i (pos 0) +ℤ delta))

pub sum_cells : ℤ → List ℤ → ℤ
unfolding ◌+ℤ◌
sum_cells sum [] = sum
sum_cells sum (v ∷ vs) = sum_cells (int64 (sum +ℤ v)) vs

unfoldable pub total_of : HotCounter → ℤ
unfolding sum_cells
total_of c = sum_cells (pos 0) c

-- A counter for each guarantee.
abbrev pub GuaranteeMetricBuckets : Type 0
GuaranteeMetricBuckets = List HotCounter

abbrev pub zero_buckets : GuaranteeMetricBuckets
zero_buckets = replicate 4 zero_counter

abbrev pub bucket : ℕ → GuaranteeMetricBuckets → HotCounter
bucket i b = get_or b i zero_counter

-- A field that Go adds to atomically.
unfoldable pub bump : ℤ → ℤ → ℤ
unfolding ◌+ℤ◌
bump delta v = int64 (v +ℤ delta)

-- An int; the last holds the values that no constant names.
pub data DeliveryMode : Type 0 where
  p2p group_reliable group_broadcast namespace_wide global_wide : DeliveryMode
  other_mode : ℤ → DeliveryMode

pub record OverloadMetrics : Type 0 where
  pub admitted : GuaranteeMetricBuckets
  pub realtime : GuaranteeMetricBuckets
  pub offline_fallback : GuaranteeMetricBuckets
  pub ephemeral_merged : HotCounter
  pub ephemeral_dropped : HotCounter
  pub unrecoverable : GuaranteeMetricBuckets
  pub admission_delayed : ℤ
  pub admission_offline : ℤ
  pub shaper_denied : ℤ
  pub write_batch_total : ℤ
  pub write_batch_count : ℤ
  pub evicted_slow : ℤ
  pub deliver_modes : List ℤ
  pub cluster_grpc_messages : ℤ
  pub cluster_grpc_nodes : ℤ
  pub cluster_pub_sub_fallbacks : ℤ
  pub cluster_dispatch_syncs : ℤ

-- The zero value.
abbrev pub zero_metrics : OverloadMetrics
zero_metrics = record {
  admitted = zero_buckets;
  realtime = zero_buckets;
  offline_fallback = zero_buckets;
  ephemeral_merged = zero_counter;
  ephemeral_dropped = zero_counter;
  unrecoverable = zero_buckets;
  admission_delayed = pos 0;
  admission_offline = pos 0;
  shaper_denied = pos 0;
  write_batch_total = pos 0;
  write_batch_count = pos 0;
  evicted_slow = pos 0;
  deliver_modes = replicate 5 (pos 0);
  cluster_grpc_messages = pos 0;
  cluster_grpc_nodes = pos 0;
  cluster_pub_sub_fallbacks = pos 0;
  cluster_dispatch_syncs = pos 0;
}

unfoldable pub bucket_index : DeliveryGuarantee → ℕ
bucket_index standard = 0
bucket_index ephemeral = 1
bucket_index guaranteed = 2
bucket_index _ = 3

-- One more in the bucket of a guarantee.
unfoldable pub count_in : ℕ → DeliveryGuarantee → GuaranteeMetricBuckets → GuaranteeMetricBuckets
unfolding bucket_index add
count_in random g b = set b (bucket_index g) (add random (pos 1) (bucket (bucket_index g) b))

unfoldable pub record_admitted : ℕ → DeliveryGuarantee → OverloadMetrics → OverloadMetrics
unfolding count_in
record_admitted random g m = record m { admitted = count_in random g m.admitted }

unfoldable pub record_realtime : ℕ → DeliveryGuarantee → OverloadMetrics → OverloadMetrics
unfolding count_in
record_realtime random g m = record m { realtime = count_in random g m.realtime }

unfoldable pub record_offline_fallback : ℕ → DeliveryGuarantee → OverloadMetrics → OverloadMetrics
unfolding count_in
record_offline_fallback random g m = record m {
  offline_fallback = count_in random g m.offline_fallback;
}

unfoldable pub record_ephemeral_drop : ℕ → OverloadMetrics → OverloadMetrics
unfolding add
record_ephemeral_drop random m = record m {
  ephemeral_dropped = add random (pos 1) m.ephemeral_dropped;
}

unfoldable pub record_ephemeral_merged : ℕ → OverloadMetrics → OverloadMetrics
unfolding add
record_ephemeral_merged random m = record m {
  ephemeral_merged = add random (pos 1) m.ephemeral_merged;
}

unfoldable pub record_unrecoverable : ℕ → DeliveryGuarantee → OverloadMetrics → OverloadMetrics
unfolding count_in
record_unrecoverable random g m = record m { unrecoverable = count_in random g m.unrecoverable }

unfoldable pub record_admission_verdict : AdmitVerdict → OverloadMetrics → OverloadMetrics
unfolding bump
record_admission_verdict verdict_admit m = m
record_admission_verdict verdict_delay m = record m {
  admission_delayed = bump (pos 1) m.admission_delayed;
}
record_admission_verdict verdict_offline m = record m {
  admission_offline = bump (pos 1) m.admission_offline;
}

unfoldable pub record_shaper_denied : OverloadMetrics → OverloadMetrics
unfolding bump
record_shaper_denied m = record m { shaper_denied = bump (pos 1) m.shaper_denied }

unfoldable pub record_write_batch : ℤ → OverloadMetrics → OverloadMetrics
unfolding bump
record_write_batch n m = record m {
  write_batch_total = bump n m.write_batch_total;
  write_batch_count = bump (pos 1) m.write_batch_count;
}

unfoldable pub record_slow_evict : OverloadMetrics → OverloadMetrics
unfolding bump
record_slow_evict m = record m { evicted_slow = bump (pos 1) m.evicted_slow }

unfoldable pub deliver_mode_index : DeliveryMode → ℕ
deliver_mode_index p2p = 0
deliver_mode_index group_reliable = 1
deliver_mode_index group_broadcast = 2
deliver_mode_index namespace_wide = 3
deliver_mode_index _ = 4

unfoldable pub record_deliver_mode : DeliveryMode → OverloadMetrics → OverloadMetrics
unfolding deliver_mode_index bump
record_deliver_mode mode m =
    let i = deliver_mode_index mode in
    record m {
      deliver_modes = set m.deliver_modes i (bump (pos 1) (get_or m.deliver_modes i (pos 0)));
    }

unfoldable pub record_cluster_grpc : ℤ → OverloadMetrics → OverloadMetrics
unfolding bump
record_cluster_grpc nodes m = record m {
  cluster_grpc_messages = bump (pos 1) m.cluster_grpc_messages;
  cluster_grpc_nodes = bump nodes m.cluster_grpc_nodes;
}

unfoldable pub record_cluster_pub_sub_fallback : OverloadMetrics → OverloadMetrics
unfolding bump
record_cluster_pub_sub_fallback m = record m {
  cluster_pub_sub_fallbacks = bump (pos 1) m.cluster_pub_sub_fallbacks;
}

unfoldable pub record_cluster_dispatch_sync : OverloadMetrics → OverloadMetrics
unfolding bump
record_cluster_dispatch_sync m = record m {
  cluster_dispatch_syncs = bump (pos 1) m.cluster_dispatch_syncs;
}

-- What goes into a bucket of reliable messages, and what comes out.
unfoldable pub funnel_in : ℕ → OverloadMetrics → ℤ
unfolding total_of
funnel_in i m = total_of (bucket i m.admitted)

unfoldable pub funnel_out : ℕ → OverloadMetrics → ℤ
unfolding total_of ◌+ℤ◌
funnel_out i m = int64 (
    int64 (total_of (bucket i m.realtime) +ℤ total_of (bucket i m.offline_fallback))
    +ℤ total_of (bucket i m.unrecoverable))

unfoldable pub check_funnel : String → ℕ → OverloadMetrics → Map String ℤ
unfolding funnel_in funnel_out ◌-ℤ◌
check_funnel name i m =
    if eqb_ℤ (funnel_in i m) (funnel_out i m)
    then []
    else (name, int64 (funnel_in i m -ℤ funnel_out i m)) ∷ []

unfoldable pub delivery_funnel_consistent : OverloadMetrics → Bool × Map String ℤ
unfolding check_funnel
delivery_funnel_consistent m =
    let offences = check_funnel "standard" 0 m ++ check_funnel "guaranteed" 2 m in
    (eqb (length offences) 0, offences)
