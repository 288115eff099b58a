-- ===== src/Broker/Dedup/Slices.antt =====
-- broker/dedup.go: what a window remembers after one of its shards is replaced.
use go_wsc.Base.{
  ℕ, ◌%◌, ◌^◌, ◌<◌, String, ◌≡◌, refl, ap, ◌≢◌, ◌⊎◌, inl, inr, false, arith, if◌then◌else◌,
  Bool-cases, nat_eq, string_eq, pair_eq, ◌==◌, length, length-set, get_or-set_self, get_or-set_ne,
}
use native.Mathlib.Decide.{ℕ_discrete}
use native.Mathlib.Nat.{mod-lt}
use go_wsc.Base.Map
use go_wsc.Base.Map.{Map}
use go_wsc.Broker.Dedup.{DedupShard, DedupWindow, empty_shard, fnv_shard, shard_of, set_shard}
use go_wsc.Broker.Dedup.Horizon.{IsTuned, horizon, shard_horizon}

wide : (n : ℕ) → n < 2 ^ 32 → n % 2 ^ 32 ≡ n
wide n w = omega arith

differ : (key j : String) (n : ℕ) → fnv_shard key n ≢ fnv_shard j n → key == j ≡ false
differ key j n h = elim (Bool-cases (key == j)) [
  | inl e ↦ absurd (h (ap (λ k. fnv_shard k n) ((string_eq.agrees_iff key j).0 e)))
  | inr e ↦ e
]

index-lt : (key : String) (n : ℕ) → 0 < n → n < 2 ^ 32 → fnv_shard key n < n
unfolding fnv_shard
index-lt key n h w = rw (wide n w) (mod-lt _ h)

shard_of-set_shard :
    (key j : String) (s : DedupShard) (d : DedupWindow)
    → IsTuned d
    → ((shard_of j (set_shard key s d) ≡ s) × (shard_of j d ≡ shard_of key d))
      ⊎ ((shard_of j (set_shard key s d) ≡ shard_of j d) × (key == j ≡ false))
unfolding shard_of set_shard
shard_of-set_shard key j s d t =
    elim (ℕ_discrete (fnv_shard key (length d.shards)) (fnv_shard j (length d.shards))) [
      | yes p ↦ inl (
        rw (length-set, ← p)
            (get_or-set_self d.shards _ s empty_shard
              (index-lt key (length d.shards) t.sharded t.counted)),
        rw p refl,
      )
      | no n ↦ inr (
        rw length-set (get_or-set_ne d.shards _ _ s empty_shard n),
        differ key j (length d.shards) n,
      )
    ]

-- What a window remembers of a key after the shard of another is replaced.
pub horizon-set_shard :
    (key j : String) (s : DedupShard) (d : DedupWindow)
    → IsTuned d
    → (key == j ≡ false
        → (Map.has j s.active ≡ Map.has j (shard_of key d).active)
          × (Map.has j s.prev ≡ Map.has j (shard_of key d).prev))
    → horizon j (set_shard key s d) ≡ (
        if key == j
        then shard_horizon d.last_swap d.rollover (Map.has j s.active) (Map.has j s.prev)
        else horizon j d)
unfolding horizon set_shard
horizon-set_shard key j s d t h = elim (Bool-cases (key == j)) [
  | inl same ↦ elim (shard_of-set_shard key j s d t) [
    | inl (e, f) ↦ rw (e, same) refl
    | inr (e, o) ↦ absurd (cc (same, o))
  ]
  | inr other ↦ elim (shard_of-set_shard key j s d t) [
    | inl (e, f) ↦ rw (e, f, other) (rw ((h other).0, (h other).1) refl)
    | inr (e, o) ↦ rw (e, other) refl
  ]
]
