-- ===== src/Overload/Coalescer/Drain.antt =====
-- overload/coalescer.go: what a drain hands out and what it leaves.
use go_wsc.Base.{
  ℕ, zero, suc, ◌+◌, ◌≡◌, refl, sym, ap, ap₂, ◌∙◌, none, List, [], ◌∷◌, ◌++◌, map, arith,
  if◌then◌else◌, nat_eq, string_eq, pair_eq, length, length-append, get_or,
}
use go_wsc.Base.Int.{ℤ, pos, ◌+ℤ◌, ◌-ℤ◌, ltb_ℤ, int64}
use go_wsc.Base.Map
use go_wsc.Base.Map.{Map}
use native.Mathlib.Nat.{add-zero, zero-add}
use mathlib.Core.List.{append-nil, append_assoc}
use go_wsc.Base.Shards.{find, mass, AreMaps}
use go_wsc.Models.HubMessage.{HubMessage}
use go_wsc.Overload.Coalescer.{Coalescer, EphemeralKey, shard_of, drain, drain_shards}
use go_wsc.Overload.Coalescer.Slots.{IsSound, occupied, held}

all_values : List (Map EphemeralKey HubMessage) → List HubMessage
all_values [] = []
all_values (m ∷ ms) = Map.values m ++ all_values ms

length-values : (m : Map EphemeralKey HubMessage) → length (Map.values m) ≡ Map.sum (λ _. 1) m
length-values [] = refl
length-values ((k, v) ∷ m) = omega (arith, length-values m)

advance : (n l : ℕ) → pos n +ℤ (pos l -ℤ pos n) ≡ pos l
unfolding ◌+ℤ◌ ◌-ℤ◌
advance n l = ground arith

drain_shards_lem :
    (shards : List (Map EphemeralKey HubMessage)) (drained : List HubMessage)
    → drain_shards shards drained (pos (length drained))
      ≡ (drained ++ all_values shards, pos (length drained + mass (λ _. 1) shards))
unfolding drain_shards all_values
drain_shards_lem [] drained = simp (append-nil, add-zero)
drain_shards_lem ([] ∷ shards) drained = rw zero-add (drain_shards_lem shards drained)
drain_shards_lem ((e ∷ slots) ∷ shards) drained = rw advance (
    drain_shards_lem shards (drained ++ Map.values (e ∷ slots))
    ∙ ap₂ (λ (x : List HubMessage) (y : ℤ). (x, y))
        (append_assoc drained (Map.values (e ∷ slots)) (all_values shards))
        (ap pos (
          omega
            (arith, length-append drained (Map.values (e ∷ slots)), length-values (e ∷ slots)))))

cleared : List (Map EphemeralKey HubMessage) → List (Map EphemeralKey HubMessage)
cleared = map (λ _. [])

cleared_facts :
    (s : List (Map EphemeralKey HubMessage))
    → (length (cleared s) ≡ length s)
      × (mass (λ _. 1) (cleared s) ≡ 0)
      × AreMaps shard_of (cleared s)
unfolding cleared
cleared_facts [] = (refl, refl, tt)
cleared_facts (m ∷ ms) =
    let r = cleared_facts ms in (omega (arith, r.0), omega (arith, r.1), (tt, r.2))

find-cleared :
    (k : EphemeralKey) (s : List (Map EphemeralKey HubMessage)) → find shard_of k (cleared s) ≡ none
unfolding find cleared Map.lookup
find-cleared k s = go s (shard_of k)
  where
    go :
        (s : List (Map EphemeralKey HubMessage)) (i : ℕ)
        → Map.lookup {V = HubMessage} k (get_or (map (λ _. []) s) i []) ≡ none
    go [] i = refl
    go (m ∷ ms) zero = refl
    go (m ∷ ms) (suc i) = go ms i

-- The messages that are held, shard by shard.
pub contents : Coalescer → List HubMessage
contents c = all_values c.shards

drained :
    (c : Coalescer) → drain_shards c.shards [] (pos 0) ≡ (all_values c.shards, pos (occupied c))
drained c = drain_shards_lem c.shards [] ∙ ap (λ (n : ℕ). (all_values c.shards, pos n)) (zero-add _)

length-all_values :
    (s : List (Map EphemeralKey HubMessage)) → length (all_values s) ≡ mass (λ _. 1) s
unfolding all_values
length-all_values [] = refl
length-all_values (m ∷ ms) =
    omega
      (arith, length-append (Map.values m) (all_values ms), length-values m, length-all_values ms)

-- A drain of a sound coalescer returns all messages that are held, and their number is what the
-- size counter read.
pub drain-contents :
    (cap : ℕ) (c : Coalescer)
    → IsSound cap c
    → ((drain c).1 ≡ contents c) × (c.size ≡ pos (length (drain c).1))
unfolding drain contents
drain-contents cap c s =
    rw (drained c) (refl, s.size_reads ∙ ap pos (sym (length-all_values c.shards)))

rest :
    (z : ℤ) (n : ℕ) → z ≡ pos n → (if ltb_ℤ (pos 0) (pos n) then int64 (z -ℤ pos n) else z) ≡ pos 0
unfolding ◌-ℤ◌
rest z n e = rw e (ground arith)

drain_state :
    (cap : ℕ) (c : Coalescer)
    → IsSound cap c
    → (drain c).0 ≡ record c { shards = cleared c.shards; size = pos 0 }
unfolding drain cleared
drain_state cap c s = rw (drained c) (ground (arith, rest c.size (occupied c) s.size_reads))

-- A drain leaves a sound coalescer that holds nothing under any key, with the size counter at 0.
pub drain-empties :
    (cap : ℕ) (c : Coalescer)
    → IsSound cap c
    → IsSound cap (drain c).0
      × ((drain c).0.size ≡ pos 0)
      × ((k : EphemeralKey) → held k (drain c).0 ≡ none)
drain-empties cap c s =
    let (same_length, none_left, are_maps) = cleared_facts c.shards in
    rw (drain_state cap c s) (
      record {
        sharded = same_length ∙ s.sharded;
        maps = are_maps;
        capacity_reads = s.capacity_reads;
        size_reads = ap pos (sym none_left);
        bounded = omega (arith, none_left);
      },
      refl,
      λ k. find-cleared k c.shards,
    )
