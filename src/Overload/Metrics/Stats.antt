-- ===== src/Overload/Metrics/Stats.antt =====
-- overload/overload_metrics.go: the snapshots of the counters. A value of the map is a number, or a map of
-- numbers.
use go_wsc.Base.{String, List, [], ◌∷◌, nat_eq, string_eq, pair_eq, get_or}
use go_wsc.Base.Int.{ℤ, pos}
use go_wsc.Base.Map.{Map}
use go_wsc.Overload.Metrics.{total_of, GuaranteeMetricBuckets, bucket, OverloadMetrics}

pub data Stat : Type 0 where
  number : ℤ → Stat
  numbers : Map String ℤ → Stat

unfoldable pub read_buckets : GuaranteeMetricBuckets → Map String ℤ
unfolding total_of
read_buckets b =
    ("standard", total_of (bucket 0 b))
    ∷ ("ephemeral", total_of (bucket 1 b))
    ∷ ("guaranteed", total_of (bucket 2 b))
    ∷ ("unset", total_of (bucket 3 b))
    ∷ []

unfoldable pub read_modes : List ℤ → Map String ℤ
read_modes modes =
    ("p2p", get_or modes 0 (pos 0))
    ∷ ("group_reliable", get_or modes 1 (pos 0))
    ∷ ("group_broadcast", get_or modes 2 (pos 0))
    ∷ ("namespace", get_or modes 3 (pos 0))
    ∷ ("global", get_or modes 4 (pos 0))
    ∷ []

unfoldable pub overload_stats : OverloadMetrics → Map String Stat
unfolding read_buckets read_modes total_of
overload_stats m =
    ("admitted", numbers (read_buckets m.admitted))
    ∷ ("realtime", numbers (read_buckets m.realtime))
    ∷ ("offline_fallback", numbers (read_buckets m.offline_fallback))
    ∷ ("unrecoverable", numbers (read_buckets m.unrecoverable))
    ∷ ("ephemeral_merged", number (total_of m.ephemeral_merged))
    ∷ ("ephemeral_dropped", number (total_of m.ephemeral_dropped))
    ∷ ("admission_delayed", number m.admission_delayed)
    ∷ ("admission_offline", number m.admission_offline)
    ∷ ("shaper_denied", number m.shaper_denied)
    ∷ ("write_batch_total", number m.write_batch_total)
    ∷ ("write_batch_count", number m.write_batch_count)
    ∷ ("slow_evicted", number m.evicted_slow)
    ∷ ("deliver_modes", numbers (read_modes m.deliver_modes))
    ∷ ("cluster_grpc_messages", number m.cluster_grpc_messages)
    ∷ ("cluster_grpc_nodes", number m.cluster_grpc_nodes)
    ∷ ("cluster_pubsub_fallbacks", number m.cluster_pub_sub_fallbacks)
    ∷ ("cluster_dispatch_syncs", number m.cluster_dispatch_syncs)
    ∷ []

unfoldable pub metrics_snapshot : OverloadMetrics → Map String ℤ
unfolding total_of
metrics_snapshot m =
    ("ephemeral_merged", total_of m.ephemeral_merged)
    ∷ ("ephemeral_dropped", total_of m.ephemeral_dropped)
    ∷ ("admission_delayed", m.admission_delayed)
    ∷ ("admission_offline", m.admission_offline)
    ∷ ("shaper_denied", m.shaper_denied)
    ∷ ("slow_evicted", m.evicted_slow)
    ∷ ("write_batch_total", m.write_batch_total)
    ∷ ("write_batch_count", m.write_batch_count)
    ∷ ("cluster_grpc_messages", m.cluster_grpc_messages)
    ∷ ("cluster_grpc_nodes", m.cluster_grpc_nodes)
    ∷ ("cluster_pubsub_fallbacks", m.cluster_pub_sub_fallbacks)
    ∷ ("cluster_dispatch_syncs", m.cluster_dispatch_syncs)
    ∷ []
