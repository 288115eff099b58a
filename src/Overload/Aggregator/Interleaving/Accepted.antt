-- ===== src/Overload/Aggregator/Interleaving/Accepted.antt =====
-- overload/aggregator.go: what an offer does to the shards and to what waits.
use go_wsc.Base.{
  ◌⊎◌, ◌≡◌, refl, sym, ap, ◌∙◌, inl, inr, Bool, true, false, ◌||◌, Option, none, some, List, [],
  ◌∷◌, ◌++◌, arith, if◌then◌else◌, String, Bool-cases, nat_eq, string_eq, pair_eq, ◌==◌, length,
  str_eq, All, All-get_or,
}
use mathlib.Core.List.{append-nil}
use go_wsc.Base.Int.{pos, ◌+ℤ◌, leb_ℤ, int64}
use go_wsc.Base.Map
use go_wsc.Base.Map.{Map, IsMap}
use go_wsc.Base.Shards.{find, put, find-put}
use go_wsc.Overload.Aggregator.{
  MessageAggregator, AggregatorGroup, GroupKey, Payload, shard_of, offer, offer_to, append_to,
  count_offer, is_empty, key_eq,
}
use go_wsc.Overload.Aggregator.Flush.{IsNamed}
use go_wsc.Overload.Aggregator.Interleaving.Kept.{shard_of-lt, IsKept, Shards, put-IsKept}
use go_wsc.Overload.Aggregator.Interleaving.{accept, accepted_for, payloads_of}

lookup-IsNamed :
    (k : GroupKey) (g : AggregatorGroup) (m : Map GroupKey AggregatorGroup)
    → IsNamed m
    → Map.lookup k m ≡ some g
    → (g.app_id, g.group_id) ≡ k
unfolding Map.lookup
lookup-IsNamed k g [] h e = absurd (cc e)
lookup-IsNamed k g ((j, f) ∷ m) h e = elim (Bool-cases (j == k)) [
  | inl same ↦ let q : f ≡ g = cc (rw same at e) in rw (← q) (h.0 ∙ (key_eq.agrees_iff j k).0 same)
  | inr other ↦ lookup-IsNamed k g m h.1 (rw other at e)
]

-- An offer of `p` for `j` leaves the shards, or it puts back the group that it finds or makes there,
-- with the payload behind the others when it is accepted.
abbrev pub Offered : GroupKey → Payload → Shards → MessageAggregator × Bool → Type 0
Offered j p s (a, accepted) =
    ((accepted ≡ false) × (a.shards ≡ s))
    ⊎ ((g : AggregatorGroup) × (payloads_of (find shard_of j s) ≡ g.payloads)
        × ((g.app_id, g.group_id) ≡ j)
        × (((accepted ≡ false) × (a.shards ≡ put shard_of j g s))
            ⊎ ((accepted ≡ true)
                × (a.shards ≡ put shard_of j (record g { payloads = g.payloads ++ p ∷ [] }) s))))

append_to-Offered :
    (a : MessageAggregator) (j : GroupKey) (g : AggregatorGroup) (p : Payload)
    → payloads_of (find shard_of j a.shards) ≡ g.payloads
    → (g.app_id, g.group_id) ≡ j
    → Offered j p a.shards (count_offer (append_to a j g p))
unfolding append_to count_offer
append_to-Offered a j g p e n =
    elim (Bool-cases (leb_ℤ a.max_per_group (pos (length g.payloads)))) [
      | inl full ↦ rw full (inr (g, e, n, inl (refl, refl)))
      | inr room ↦ rw room (inr (g, e, n, inr (refl, refl)))
    ]

offer_to-Offered :
    (a : MessageAggregator) (j : GroupKey) (o : Option AggregatorGroup) (p : Payload)
    → All IsNamed a.shards
    → find shard_of j a.shards ≡ o
    → Offered j p a.shards (count_offer (offer_to a j o p))
unfolding offer_to find count_offer
offer_to-Offered a j (some g) p h e =
    append_to-Offered a j g p (ap payloads_of e)
      (lookup-IsNamed j g _ (All-get_or IsNamed a.shards (shard_of j) [] tt h) e)
offer_to-Offered a j none p h e = elim (Bool-cases (leb_ℤ a.max_groups a.group_count)) [
  | inl full ↦ rw full (inl (refl, refl))
  | inr room ↦ rw room (
      append_to-Offered (record a { group_count = int64 (a.group_count +ℤ pos 1) }) j
        (record { app_id = j.0; group_id = j.1; payloads = [] }) p (ap payloads_of e) refl)
]

pub offer-Offered :
    (a : MessageAggregator) (app_id group_id : String) (p : Payload)
    → All IsNamed a.shards
    → Offered (app_id, group_id) p a.shards (offer a app_id group_id p)
unfolding offer
offer-Offered a app_id group_id p h =
    elim (Bool-cases (str_eq app_id "" || str_eq group_id "" || is_empty p)) [
      | inl invalid ↦ rw invalid (inl (refl, refl))
      | inr valid ↦ rw valid (offer_to-Offered a (app_id, group_id) _ p h refl)
    ]

put-payloads :
    (k j : GroupKey) (g : AggregatorGroup) (s : Shards) (more : List Payload)
    → IsKept k s
    → g.payloads ≡ payloads_of (find shard_of j s) ++ more
    → payloads_of (find shard_of k (put shard_of j g s))
      ≡ payloads_of (find shard_of k s) ++ (if j == k then more else [])
put-payloads k j g s more h e =
    rw (find-put shard_of j k g s (rw h.sharded (shard_of-lt j))) (elim (Bool-cases (j == k)) [
      | inl same ↦
          rw same
            (e ∙ ap (λ x. payloads_of (find shard_of x s) ++ more) ((key_eq.agrees_iff j k).0 same))
      | inr other ↦ rw other (sym (append-nil _))
    ])

-- The shards stay kept, and an accepted payload joins what waits for its key.
pub Offered-kept :
    (k j : GroupKey) (p : Payload) (s : Shards) (r : MessageAggregator × Bool)
    → IsKept k s
    → Offered j p s r
    → IsKept k r.0.shards
      × (payloads_of (find shard_of k r.0.shards)
          ≡ payloads_of (find shard_of k s) ++ accepted_for k (accept r.1 j p))
Offered-kept k j p s r h (inl (refused, same)) = rw (refused, same) (h, sym (append-nil _))
Offered-kept k j p s r h (inr (g, e, n, inl (refused, same))) =
    rw (refused, same)
      (
        put-IsKept k s h j g n,
        put-payloads k j g s [] h (sym e ∙ sym (append-nil _))
            ∙ ap (λ x. payloads_of (find shard_of k s) ++ x) (ground arith),
      )
Offered-kept k j p s r h (inr (g, e, n, inr (accepted, grown))) =
    rw (accepted, grown)
      (
        put-IsKept k s h j (record g { payloads = g.payloads ++ p ∷ [] }) n,
        put-payloads k j (record g { payloads = g.payloads ++ p ∷ [] }) s (p ∷ []) h
            (ap (λ x. x ++ p ∷ []) (sym e)),
      )
