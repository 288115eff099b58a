-- ===== src/Overload/Coalescer/Slots.antt =====
-- overload/coalescer.go: the messages under their keys, and the capacity.
use go_wsc.Base.{
  ℕ, suc, ◌^◌, ◌≤◌, ◌<◌, ◌≡◌, sym, ap, ◌∙◌, ◌↔◌, ◌⊎◌, inl, inr, Bool, true, false, ◌||◌, Option,
  none, some, arith, str_eq, if◌then◌else◌, Bool-cases, Option-cases, nat_eq, string_eq, pair_eq,
  ◌==◌, length,
}
use native.Mathlib.Decide.{dec_lt}
use go_wsc.Base.Int.{ℤ, pos, ◌+ℤ◌, int64}
use go_wsc.Base.Shards.{find, put, find-put, mass, mass-put, length-put, AreMaps, put-AreMaps}
use go_wsc.Models.HubMessage.{HubMessage}
use go_wsc.Overload.Coalescer.{Coalescer, EphemeralKey, shard_of, offer, store, count_offer}

abbrev pub occupied : Coalescer → ℕ
occupied c = mass (λ _. 1) c.shards

-- What the coalescer holds under a key.
abbrev pub held : EphemeralKey → Coalescer → Option HubMessage
held k c = find shard_of k c.shards

-- A message stored and counted.
abbrev pub stored : Coalescer → EphemeralKey → HubMessage → Bool → Coalescer
stored c k m existed = count_offer existed (store c k m)

pub record IsSound (cap : ℕ) (c : Coalescer) : Type 0 where
  pub sharded : length c.shards ≡ 16
  pub maps : AreMaps shard_of c.shards
  pub capacity_reads : c.capacity ≡ pos cap
  pub size_reads : c.size ≡ pos (occupied c)
  pub bounded : occupied c ≤ cap

shard_of-lt : (k : EphemeralKey) → shard_of k < 16
unfolding shard_of
shard_of-lt k = omega arith

next_size :
    (z : ℤ) (n cap : ℕ) → z ≡ pos n → n < cap → cap < 2 ^ 63 → int64 (z +ℤ pos 1) ≡ pos (suc n)
unfolding ◌+ℤ◌
next_size z n cap e h w = rw e (ground arith)

module _ (cap : ℕ) (w : cap < 2 ^ 63) (c : Coalescer) (s : IsSound cap c) where
  indexed : (k : EphemeralKey) → shard_of k < length c.shards
  indexed k = rw s.sharded (shard_of-lt k)

  store-held :
      (k j : EphemeralKey) (m : HubMessage) (existed : Bool)
      → held j (stored c k m existed) ≡ (if k == j then some m else held j c)
  unfolding store count_offer
  store-held k j m true = find-put shard_of k j m c.shards (indexed k)
  store-held k j m false = find-put shard_of k j m c.shards (indexed k)

  -- A message under a key that is absent, while there is room.
  pub store_new-IsSound :
      (k : EphemeralKey) (m : HubMessage)
      → held k c ≡ none
      → occupied c < cap
      → IsSound cap (stored c k m false) × (occupied (stored c k m false) ≡ suc (occupied c))
  unfolding store count_offer
  store_new-IsSound k m a room =
      let mass' = mass-put shard_of (λ _. 1) k m c.shards (indexed k) in
      let grown : mass (λ _. 1) (put shard_of k m c.shards) ≡ suc (occupied c) =
        ground (arith, a, mass') in
      (
        record {
          sharded = length-put shard_of k m c.shards ∙ s.sharded;
          maps = put-AreMaps shard_of k m c.shards s.maps;
          capacity_reads = s.capacity_reads;
          size_reads = next_size c.size (occupied c) cap s.size_reads room w ∙ ap pos (sym grown);
          bounded = rw grown room;
        },
        grown,
      )

  -- A message under a key that is present.
  pub store_old-IsSound :
      (k : EphemeralKey) (m old : HubMessage)
      → held k c ≡ some old
      → IsSound cap (stored c k m true) × (occupied (stored c k m true) ≡ occupied c)
  unfolding store count_offer
  store_old-IsSound k m old a =
      let mass' = mass-put shard_of (λ _. 1) k m c.shards (indexed k) in
      let same : mass (λ _. 1) (put shard_of k m c.shards) ≡ occupied c =
        ground (arith, a, mass') in
      (
        record {
          sharded = length-put shard_of k m c.shards ∙ s.sharded;
          maps = put-AreMaps shard_of k m c.shards s.maps;
          capacity_reads = s.capacity_reads;
          size_reads = s.size_reads ∙ ap pos (sym same);
          bounded = rw same s.bounded;
        },
        same,
      )

  abbrev IsNamed : EphemeralKey → Type 0
  IsNamed k = str_eq k.0 "" || str_eq k.1 "" ≡ false

  pub offer_cases :
      (k : EphemeralKey) (m : HubMessage)
      → IsNamed k
      → ((held k c ≡ none) × (cap ≤ occupied c) × (offer c k (some m) ≡ (c, false, false)))
        ⊎ ((held k c ≡ none)
            × (occupied c < cap)
            × (offer c k (some m) ≡ (stored c k m false, true, false)))
        ⊎ ((old : HubMessage) × (held k c ≡ some old)
            × (offer c k (some m) ≡ (stored c k m true, true, true)))
  unfolding offer
  offer_cases k m n = elim (Option-cases (held k c)) [
    | inl a ↦ elim (dec_lt (occupied c) cap) [
      | yes room ↦ inr (inl (a, room, ground arith))
      | no full ↦ inl (a, omega arith, ground arith)
    ]
    | inr (old, p) ↦ inr (inr (old, p, ground arith))
  ]

  -- An offer that no other call overlaps keeps the coalescer sound: one message for each key, the
  -- size counter exact, and no more entries than the capacity.
  pub offer-IsSound : (k : EphemeralKey) (o : Option HubMessage) → IsSound cap (offer c k o).0
  unfolding offer
  offer-IsSound k none = s
  offer-IsSound k (some m) = elim (Bool-cases (str_eq k.0 "" || str_eq k.1 "")) [
    | inl unnamed ↦ rw unnamed s
    | inr named ↦ elim (offer_cases k m named) [
      | inl (a, full, e) ↦ rw e s
      | inr (inl (a, room, e)) ↦ rw e (store_new-IsSound k m a room).0
      | inr (inr (old, p, e)) ↦ rw e (store_old-IsSound k m old p).0
    ]
  ]

  -- The latest message wins: an accepted message is what its key holds, and every other key holds
  -- what it held.
  pub offer-held :
      (k j : EphemeralKey) (m : HubMessage)
      → (offer c k (some m)).1 ≡ true
      → held j (offer c k (some m)).0 ≡ (if k == j then some m else held j c)
  unfolding offer
  offer-held k j m h = elim (Bool-cases (str_eq k.0 "" || str_eq k.1 "")) [
    | inl unnamed ↦ absurd (cc (rw unnamed at h))
    | inr named ↦ elim (offer_cases k m named) [
      | inl (a, full, e) ↦ absurd (cc (ap (λ r. r.1) e))
      | inr (inl (a, room, e)) ↦ rw e (store-held k j m false)
      | inr (inr (old, p, e)) ↦ rw e (store-held k j m true)
    ]
  ]

  -- An offer under a key without an empty part is refused exactly when the key is absent and the
  -- coalescer is full.
  pub offer-refused :
      (k : EphemeralKey) (m : HubMessage)
      → IsNamed k
      → ((offer c k (some m)).1 ≡ false) ↔ ((held k c ≡ none) × (cap ≤ occupied c))
  offer-refused k m n = elim (offer_cases k m n) [
    | inl (a, full, e) ↦ (λ h. (a, full), λ h. ap (λ r. r.1) e)
    | inr (inl (a, room, e)) ↦ (λ h. absurd (cc (ap (λ r. r.1) e)), λ h. absurd (omega arith))
    | inr (inr (old, p, e)) ↦ (λ h. absurd (cc (ap (λ r. r.1) e)), λ h. absurd (cc (h.0)))
  ]
