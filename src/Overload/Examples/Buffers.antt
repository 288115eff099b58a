-- ===== src/Overload/Examples/Buffers.antt =====
-- The theorems on the coalescer and the aggregator at concrete inputs.
use go_wsc.Base.Int.{◌+ℤ◌}
use go_wsc.Base.{
  ℕ, ◌<◌, ◌++◌, List, ◌≡◌, refl, some, [], ◌∷◌, map, arith, nat_eq, string_eq, pair_eq, length,
}
use go_wsc.Base.Tests.{pairs_agree}
use go_wsc.Base.Bytes.{fnv_string, fnv_bytes, bytes}
use go_wsc.Base.Int.{pos}
use go_wsc.Models.Samples.{typing}
use go_wsc.Base.Shards.{find}
use go_wsc.Base.Map
use go_wsc.Overload.Coalescer.{Coalescer, EphemeralKey, new_coalescer, offer, drain, shard_of}
use go_wsc.Overload.Coalescer.Slots.{IsSound, held, offer-IsSound, offer-held}
use go_wsc.Overload.Coalescer.Drain.{contents, drain-contents}
use go_wsc.Overload.Coalescer.Interleaving
use go_wsc.Overload.Coalescer.Interleaving.{
  Thread, passed, wrote, World, Run, start, next, tests, writes, counts,
}
use go_wsc.Overload.Coalescer.Interleaving.Bound.{run-bounded}
use go_wsc.Overload.Aggregator
use go_wsc.Overload.Aggregator.{MessageAggregator, new_message_aggregator}
use go_wsc.Overload.Aggregator.Frames.{json_array}
use go_wsc.Overload.Aggregator.Flush.{frames_for}
use go_wsc.Overload.Aggregator.Interleaving.{
  offers, flushes, nothing_offered, accepted_for, waiting,
}
use go_wsc.Overload.Aggregator.Interleaving.Kept
use go_wsc.Overload.Aggregator.Interleaving.Conserved.{join, run-conserved}

abbrev empty_slots : Coalescer
empty_slots = new_coalescer (pos 1)

empty_slots-IsSound : IsSound 1 empty_slots
unfolding new_coalescer
empty_slots-IsSound = record {
  sharded = refl;
  maps = (
    tt,
    (tt, (tt, (tt, (tt, (tt, (tt, (tt, (tt, (tt, (tt, (tt, (tt, (tt, (tt, (tt, tt))))))))))))))),
  );
  capacity_reads = refl;
  size_reads = refl;
  bounded = omega arith;
}

abbrev key : EphemeralKey
key = ("alice", "typing")

abbrev full : Coalescer
full = (offer empty_slots key (some typing)).0

offer-held_example : held key full ≡ some typing
unfolding offer new_coalescer find Map.lookup shard_of fnv_string fnv_bytes bytes pairs_agree
offer-held_example = offer-held 1 (omega arith) empty_slots empty_slots-IsSound key key typing refl

drain-contents_example :
    ((drain full).1 ≡ contents full) × (full.size ≡ pos (length (drain full).1))
drain-contents_example =
    drain-contents 1 full
      (offer-IsSound 1 (omega arith) empty_slots empty_slots-IsSound key (some typing))

-- Two offers under new keys pass the test of a coalescer of one place, write, and are counted.
abbrev writes_of : ℕ → List Thread → World
writes_of n ts = record { entries = n; size = pos 0; threads = ts }

abbrev overfull : World
overfull = record { entries = 2; size = pos 2; threads = [] }

overlapping : Run 1 2 Interleaving.empty 6 overfull
unfolding ◌+ℤ◌
overlapping =
    let w1 = writes_of 0 (passed ∷ []) in
    let w2 = writes_of 0 (passed ∷ passed ∷ []) in
    let w3 = writes_of 1 (wrote ∷ passed ∷ []) in
    let w4 = writes_of 2 (wrote ∷ wrote ∷ []) in
    let w5 : World = record { entries = 2; size = pos 1; threads = wrote ∷ [] } in
    next Interleaving.empty w5 _ 5
      (next Interleaving.empty w4 _ 4
        (next Interleaving.empty w3 _ 3
          (next Interleaving.empty w2 _ 2
            (next Interleaving.empty w1 _ 1
              (next Interleaving.empty Interleaving.empty _ 0 (start Interleaving.empty)
                (tests Interleaving.empty (omega arith)) (omega arith))
              (tests w1 (omega arith)) (omega arith))
            (writes w2 [] (passed ∷ []) refl) (omega arith))
          (writes w3 (wrote ∷ []) [] refl) (omega arith))
        (counts w4 [] (wrote ∷ []) refl) (omega arith))
      (counts w5 [] [] refl) (omega arith)

run-bounded_example : (overfull.entries < 3) × (overfull.threads ≡ [] → overfull.size ≡ pos 2)
run-bounded_example = run-bounded 1 2 6 overfull (omega arith) (omega arith) overlapping

abbrev limits : MessageAggregator
limits = new_message_aggregator (pos 2) (pos 2)

-- A flush comes between the offers of a group.
abbrev events : List Aggregator.Interleaving.Event
events =
    offers (pos 0) "app" "g1" (123 ∷ 125 ∷ [])
    ∷ offers (pos 1) "app" "g2" (49 ∷ [])
    ∷ flushes (Aggregator.shard_of ("app", "g1"))
    ∷ offers (pos 2) "app" "g1" (50 ∷ [])
    ∷ []

run-conserved_example :
    (windows : List (List (List ℕ))) × (frames_for
        ("app", "g1")
        (Aggregator.Interleaving.run limits events nothing_offered).out
      ≡ map json_array windows)
    × (join windows
          ++ waiting ("app", "g1") (Aggregator.Interleaving.run limits events nothing_offered)
        ≡ accepted_for
            ("app", "g1")
            (Aggregator.Interleaving.run limits events nothing_offered).accepted)
run-conserved_example =
    run-conserved limits ("app", "g1") events (Kept.shard_of-lt ("app", "g1"), tt)
