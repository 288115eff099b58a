-- ===== src/Overload/Aggregator/Interleaving/Kept.antt =====
-- overload/aggregator.go: the shards over offers and flushes.
use go_wsc.Base.{
  ℕ, ◌<◌, ◌≡◌, ◌≢◌, sym, ap, ◌∙◌, inl, inr, none, List, [], arith, Bool-cases, nat_eq, string_eq,
  pair_eq, ◌==◌, length, length-set, get_or, set, get_or-set_self, get_or-set_ne, All, All-get_or,
  All-set,
}
use native.Mathlib.Decide.{ℕ_discrete}
use go_wsc.Base.Map
use go_wsc.Base.Map.{Map, IsMap}
use go_wsc.Base.Shards.{find, put, length-put, AreMaps, put-AreMaps}
use go_wsc.Overload.Aggregator.{AggregatorGroup, GroupKey, shard_of, flush_shard, key_eq}
use go_wsc.Overload.Aggregator.Flush.{
  flushed, flush_shard-lookup, flush_shard-IsMap, IsNamed, flush_shard-IsNamed, insert-IsNamed,
}
use go_wsc.Overload.Aggregator.Interleaving.{no_pass}

pub shard_of-lt : (k : GroupKey) → shard_of k < 16
unfolding shard_of
shard_of-lt k = omega arith

abbrev pub Shards : Type 0
Shards = List (Map GroupKey AggregatorGroup)

-- What offers and flushes keep of the shards, for a key `k` that is looked for.
pub record IsKept (k : GroupKey) (s : Shards) : Type 0 where
  pub sharded : length s ≡ 16
  pub maps : AreMaps shard_of s
  pub named : All IsNamed s
  pub placed : (i : ℕ) → i ≢ shard_of k → Map.lookup k (get_or s i []) ≡ none

module _ (k : GroupKey) (s : Shards) (h : IsKept k s) where
  put-placed :
      (j : GroupKey) (g : AggregatorGroup) (i : ℕ)
      → i ≢ shard_of k
      → Map.lookup k (get_or (put shard_of j g s) i []) ≡ none
  unfolding put
  put-placed j g i n = elim (ℕ_discrete (shard_of j) i) [
    | no apart ↦ ap (Map.lookup k) (get_or-set_ne s (shard_of j) i _ [] apart) ∙ h.placed i n
    | yes e ↦ elim (Bool-cases (j == k)) [
      | inl same ↦ absurd (n (sym e ∙ ap shard_of ((key_eq.agrees_iff j k).0 same)))
      | inr other ↦
          let m = get_or s (shard_of j) [] in
          let here : get_or (set s (shard_of j) (Map.insert j g m)) (shard_of j) []
              ≡ Map.insert j g m =
            get_or-set_self s (shard_of j) (Map.insert j g m) [] (rw h.sharded (shard_of-lt j)) in
          ap (λ x. Map.lookup k (get_or (set s (shard_of j) (Map.insert j g m)) x [])) (sym e)
          ∙ ap (Map.lookup k) here
          ∙ rw (Map.lookup-insert j k g m, other) (h.placed (shard_of j) (λ f. n (sym e ∙ f)))
    ]
  ]

  pub put-IsKept :
      (j : GroupKey) (g : AggregatorGroup)
      → (g.app_id, g.group_id) ≡ j
      → IsKept k (put shard_of j g s)
  unfolding put
  put-IsKept j g e = record {
    sharded = length-put shard_of j g s ∙ h.sharded;
    maps = put-AreMaps shard_of j g s h.maps;
    named =
        All-set IsNamed s (shard_of j) _
          (insert-IsNamed j g _ e (All-get_or IsNamed s (shard_of j) [] tt h.named)) h.named;
    placed = put-placed j g;
  }

  -- The shard `i` after its flush.
  abbrev emptied : ℕ → Map GroupKey AggregatorGroup
  emptied i = (flush_shard (get_or s i []) no_pass).0

  emptied-lookup : (i : ℕ) → Map.lookup k (emptied i) ≡ flushed (Map.lookup k (get_or s i []))
  emptied-lookup i =
      flush_shard-lookup k (get_or s i []) no_pass (All-get_or IsMap s i [] tt h.maps)

  -- What another shard than that of `k` holds under `k` stays nothing.
  pub flush-placed :
      (i x : ℕ)
      → i < length s
      → x ≢ shard_of k
      → Map.lookup k (get_or (set s i (emptied i)) x []) ≡ none
  flush-placed i x l n = elim (ℕ_discrete i x) [
    | no apart ↦ ap (Map.lookup k) (get_or-set_ne s i x _ [] apart) ∙ h.placed x n
    | yes e ↦
        ap (λ y. Map.lookup k (get_or (set s i (emptied i)) y [])) (sym e)
        ∙ ap (Map.lookup k) (get_or-set_self s i (emptied i) [] l)
        ∙ emptied-lookup i
        ∙ ap flushed (h.placed i (λ f. n (sym e ∙ f)))
  ]

  pub flush-IsKept : (i : ℕ) → i < length s → IsKept k (set s i (emptied i))
  flush-IsKept i l = record {
    sharded = length-set s i (emptied i) ∙ h.sharded;
    maps =
        All-set IsMap s i (emptied i)
          (flush_shard-IsMap (get_or s i []) no_pass (All-get_or IsMap s i [] tt h.maps)) h.maps;
    named =
        All-set IsNamed s i (emptied i)
          (flush_shard-IsNamed (get_or s i []) no_pass (All-get_or IsNamed s i [] tt h.named))
          h.named;
    placed = λ x n. flush-placed i x l n;
  }

  pub find-flush_own :
      find shard_of k (set s (shard_of k) (emptied (shard_of k))) ≡ flushed (find shard_of k s)
  unfolding find
  find-flush_own =
      ap (Map.lookup k)
        (get_or-set_self s (shard_of k) (emptied (shard_of k)) [] (rw h.sharded (shard_of-lt k)))
      ∙ emptied-lookup (shard_of k)

  pub find-flush_other :
      (i : ℕ) → i ≢ shard_of k → find shard_of k (set s i (emptied i)) ≡ find shard_of k s
  unfolding find
  find-flush_other i n = ap (Map.lookup k) (get_or-set_ne s i (shard_of k) (emptied i) [] n)
