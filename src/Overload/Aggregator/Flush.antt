-- ===== src/Overload/Aggregator/Flush.antt =====
-- overload/aggregator.go: what the flush of a shard leaves, and the frames that it hands out for a key.
use go_wsc.Base.{
  ◌≡◌, refl, sym, ap, ◌∙◌, inl, inr, Option, none, some, List, [], ◌∷◌, ◌++◌, map, arith,
  if◌then◌else◌, nat_eq, string_eq, pair_eq, Bool-cases, ◌==◌,
}
use mathlib.Core.List.{append-nil, append_assoc}
use go_wsc.Overload.Aggregator.{AggregatedBatch, batch_of}
use go_wsc.Overload.Aggregator.Frames.{json_array, join_json_payloads-array}
use go_wsc.Base.Map
use go_wsc.Base.Map.{Map}
use go_wsc.Base.Map.{IsMap}
use go_wsc.Overload.Aggregator.{
  AggregatorGroup, GroupKey, Payload, Pass, leftover, tally, key_eq, flush_shard, is_empty,
}

-- What is left under a key: nothing if its window was empty, and otherwise the emptied window.
abbrev pub flushed : Option AggregatorGroup → Option AggregatorGroup
flushed none = none
flushed (some g) = if is_empty g.payloads then none else some (record g { payloads = [] })

pub flush_shard-lookup :
    (k : GroupKey) (m : Map GroupKey AggregatorGroup) (p : Pass)
    → IsMap m
    → Map.lookup k (flush_shard m p).0 ≡ flushed (Map.lookup k m)
unfolding flush_shard leftover Map.lookup
flush_shard-lookup k [] p h = refl
flush_shard-lookup k ((j, g) ∷ m) p h =
    ground (arith, key_eq.agrees_iff j k, flush_shard-lookup k m (tally g p) h.1)

pub flush_shard-IsMap :
    (m : Map GroupKey AggregatorGroup) (p : Pass) → IsMap m → IsMap (flush_shard m p).0
unfolding flush_shard leftover
flush_shard-IsMap [] p h = tt
flush_shard-IsMap ((j, g) ∷ m) p h =
    ground (arith, flush_shard-lookup j m (tally g p) h.1, flush_shard-IsMap m (tally g p) h.1)

-- Each group has the names of its key.
abbrev pub IsNamed : Map GroupKey AggregatorGroup → Type 0
IsNamed [] = Unit
IsNamed ((k, g) ∷ m) = ((g.app_id, g.group_id) ≡ k) × IsNamed m

pub flush_shard-IsNamed :
    (m : Map GroupKey AggregatorGroup) (p : Pass) → IsNamed m → IsNamed (flush_shard m p).0
unfolding flush_shard leftover
flush_shard-IsNamed [] p h = tt
flush_shard-IsNamed ((k, g) ∷ m) p h = ground (arith, flush_shard-IsNamed m (tally g p) h.1)

pub insert-IsNamed :
    (k : GroupKey) (g : AggregatorGroup) (m : Map GroupKey AggregatorGroup)
    → (g.app_id, g.group_id) ≡ k
    → IsNamed m
    → IsNamed (Map.insert k g m)
unfolding Map.insert
insert-IsNamed k g [] e h = (e, tt)
insert-IsNamed k g ((j, f) ∷ m) e h = elim (Bool-cases (j == k)) [
  | inl same ↦ rw same (e, h.1)
  | inr other ↦ rw other (h.0, insert-IsNamed k g m e h.1)
]

-- The frames of the batches for a key.
abbrev pub frames_for : GroupKey → List AggregatedBatch → List Payload
frames_for k [] = []
frames_for k (b ∷ bs) =
    if (b.app_id, b.group_id) == k then b.frame ∷ frames_for k bs else frames_for k bs

-- The window that a flush empties, if it holds a payload.
abbrev pub window_of : Option AggregatorGroup → List (List Payload)
window_of none = []
window_of (some g) = if is_empty g.payloads then [] else g.payloads ∷ []

pub frames_for-append :
    (k : GroupKey) (bs cs : List AggregatedBatch)
    → frames_for k (bs ++ cs) ≡ frames_for k bs ++ frames_for k cs
frames_for-append k [] cs = refl
frames_for-append k (b ∷ bs) cs = elim (Bool-cases ((b.app_id, b.group_id) == k)) [
  | inl same ↦ rw same (ap (λ fs. b.frame ∷ fs) (frames_for-append k bs cs))
  | inr other ↦ rw other (frames_for-append k bs cs)
]

-- The groups of a shard whose windows hold a payload.
pub filled : Map GroupKey AggregatorGroup → List AggregatorGroup
filled [] = []
filled ((k, g) ∷ m) = if is_empty g.payloads then filled m else g ∷ filled m

pub flush_shard-out :
    (m : Map GroupKey AggregatorGroup) (p : Pass)
    → (flush_shard m p).1.out ≡ p.out ++ map batch_of (filled m)
unfolding flush_shard filled tally
flush_shard-out [] p = sym (append-nil p.out)
flush_shard-out ((k, g) ∷ m) p = elim (Bool-cases (is_empty g.payloads)) [
  | inl gone ↦ rw gone (flush_shard-out m _)
  | inr stays ↦
      rw stays
        (flush_shard-out m _ ∙ append_assoc p.out (batch_of g ∷ []) (map batch_of (filled m)))
]

frames_for-filled :
    (k : GroupKey) (m : Map GroupKey AggregatorGroup)
    → IsMap m
    → IsNamed m
    → frames_for k (map batch_of (filled m)) ≡ map json_array (window_of (Map.lookup k m))
unfolding filled batch_of Map.lookup
frames_for-filled k [] h n = refl
frames_for-filled k ((j, g) ∷ m) h n = elim (Bool-cases (is_empty g.payloads)) [
  | inl gone ↦ rw gone (elim (Bool-cases (j == k)) [
    | inl same ↦
        rw (same, gone)
          (frames_for-filled k m h.1 n.1
            ∙ ap (λ o. map json_array (window_of o)) (rw ((key_eq.agrees_iff j k).0 same) at h.0))
    | inr other ↦ rw other (frames_for-filled k m h.1 n.1)
  ])
  | inr stays ↦
      rw (stays, n.0)
        (elim (Bool-cases (j == k)) [
          | inl same ↦
              rw (same, stays, join_json_payloads-array)
                (ap (λ fs. json_array g.payloads ∷ fs)
                  (frames_for-filled k m h.1 n.1
                    ∙ ap (λ o. map json_array (window_of o))
                        (rw ((key_eq.agrees_iff j k).0 same) at h.0)))
          | inr other ↦ rw other (frames_for-filled k m h.1 n.1)
        ])
]

pub flush_shard-frames :
    (k : GroupKey) (m : Map GroupKey AggregatorGroup) (p : Pass)
    → IsMap m
    → IsNamed m
    → frames_for k (flush_shard m p).1.out
      ≡ frames_for k p.out ++ map json_array (window_of (Map.lookup k m))
flush_shard-frames k m p h n =
    ap (frames_for k) (flush_shard-out m p)
    ∙ frames_for-append k p.out (map batch_of (filled m))
    ∙ ap (λ fs. frames_for k p.out ++ fs) (frames_for-filled k m h n)
