-- ===== src/Overload/Aggregator/Interleaving/Refines.antt =====
-- overload/aggregator.go: whole calls of Flush and the steps of their shards.
use go_wsc.Base.{
  ℕ, zero, suc, ◌≡◌, refl, sym, ap, ap₂, ◌∙◌, List, [], ◌∷◌, ◌++◌, arith, nat_eq, string_eq,
  pair_eq, length, length-append, get_or, set,
}
use mathlib.Core.List.{append_assoc}
use go_wsc.Base.Map.{Map}
use go_wsc.Overload.Aggregator.{
  MessageAggregator, AggregatorGroup, AggregatedBatch, GroupKey, Payload, Pass, flush, flush_shard,
  flush_shards, tally, keep, leftover,
}
use go_wsc.Overload.Aggregator.Flush.{flush_shard-out}
use go_wsc.Overload.Aggregator.Interleaving.{World, Event, flushes, no_pass, step, run}

abbrev Shards : Type 0
Shards = List (Map GroupKey AggregatorGroup)

-- The flushes of `n` shards from the shard `i` on.
abbrev pub flush_events : ℕ → ℕ → List Event
flush_events i zero = []
flush_events i (suc n) = flushes i ∷ flush_events (suc i) n

-- What is left of a shard does not depend on the pass so far.
any_pass :
    (m : Map GroupKey AggregatorGroup) (p q : Pass) → (flush_shard m p).0 ≡ (flush_shard m q).0
unfolding flush_shard
any_pass [] p q = refl
any_pass ((k, g) ∷ m) p q = ap (keep k (leftover g)) (any_pass m (tally g p) (tally g q))

get_or-middle :
    (before after : Shards) (m : Map GroupKey AggregatorGroup)
    → get_or (before ++ m ∷ after) (length before) [] ≡ m
get_or-middle [] after m = refl
get_or-middle (x ∷ before) after m = get_or-middle before after m

set-middle :
    (before after : Shards) (m v : Map GroupKey AggregatorGroup)
    → set (before ++ m ∷ after) (length before) v ≡ before ++ v ∷ after
set-middle [] after m v = refl
set-middle (x ∷ before) after m v = ap (λ xs. x ∷ xs) (set-middle before after m v)

abbrev world : Shards → List AggregatedBatch → List (GroupKey × Payload) → World
world s out accepted = record { shards = s; out = out; accepted = accepted }

module _ (limits : MessageAggregator) (accepted : List (GroupKey × Payload)) where
  step-middle :
      (before after : Shards) (m : Map GroupKey AggregatorGroup) (out : List AggregatedBatch)
      → step limits (flushes (length before)) (world (before ++ m ∷ after) out accepted)
        ≡ world
            (before ++ (flush_shard m no_pass).0 ∷ after)
            (out ++ (flush_shard m no_pass).1.out)
            accepted
  step-middle before after m out =
      ap
        (λ x.
          world (set (before ++ m ∷ after) (length before) (flush_shard x no_pass).0)
            (out ++ (flush_shard x no_pass).1.out) accepted)
        (get_or-middle before after m)
      ∙ ap (λ s. world s (out ++ (flush_shard m no_pass).1.out) accepted)
          (set-middle before after m (flush_shard m no_pass).0)

  flush_events-run :
      (before after : Shards) (p : Pass)
      → run limits
          (flush_events (length before) (length after))
          (world (before ++ after) p.out accepted)
        ≡ world (before ++ (flush_shards after p).0) (flush_shards after p).1.out accepted
  unfolding flush_shards
  flush_events-run before [] p = refl
  flush_events-run before (m ∷ after) p =
      let left : Map GroupKey AggregatorGroup = (flush_shard m p).0 in
      let p' = (flush_shard m p).1 in
      let events = flush_events (suc (length before)) (length after) in
      let index : suc (length before) ≡ length (before ++ left ∷ []) =
        omega (arith, length-append before (left ∷ [])) in
      let outs : p.out ++ (flush_shard m no_pass).1.out ≡ p'.out =
        ap (λ xs. p.out ++ xs) (flush_shard-out m no_pass) ∙ sym (flush_shard-out m p) in
      ap (run limits events) (step-middle before after m p.out)
      ∙ ap₂
          (λ (x : Map GroupKey AggregatorGroup) (o : List AggregatedBatch).
            run limits events (world (before ++ x ∷ after) o accepted))
          (any_pass m no_pass p) outs
      ∙ ap₂
          (λ (i : ℕ) (s : Shards).
            run limits (flush_events i (length after)) (world s p'.out accepted))
          index (sym (append_assoc before (left ∷ []) after))
      ∙ flush_events-run (before ++ left ∷ []) after p'
      ∙ ap (λ s. world s (flush_shards after p').1.out accepted)
          (append_assoc before (left ∷ []) (flush_shards after p').0)

  -- Flush, with no other call under way, is the steps of its 16 shards in their order.
  pub flush-run :
      (a : MessageAggregator)
      → length a.shards ≡ 16
      → run limits (flush_events 0 16) (world a.shards [] accepted)
        ≡ world (flush a).0.shards (flush a).1 accepted
  unfolding flush
  flush-run a h =
      ap (λ n. run limits (flush_events 0 n) (world a.shards [] accepted)) (sym h)
      ∙ flush_events-run [] a.shards (record {
        out = [];
        group_count = a.group_count;
        aggregated = a.aggregated;
        batches = a.batches;
      })
