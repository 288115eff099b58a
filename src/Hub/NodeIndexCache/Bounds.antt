-- ===== src/Hub/NodeIndexCache/Bounds.antt =====
-- hub/node_index_cache.go: the cache stays within its capacity, and its count exact.
use go_wsc.Base.{
  ℕ, ◌+◌, ◌^◌, ◌≤◌, ◌<◌, String, ◌≡◌, refl, sym, ap, ◌∙◌, inl, inr, true, false, some, List, arith,
  Bool-cases, Option-cases, nat_eq, string_eq, pair_eq, agrees_refl, length,
}
use go_wsc.Base.Int.{ℤ, pos, ◌+ℤ◌, ◌-ℤ◌, ltb_ℤ, int64, +ℤ-pos, int64-pos}
use go_wsc.Base.Map
use go_wsc.Base.Map.{Map}
use mathlib.Core.Path.{subst}
use go_wsc.Base.Tests.{if_cases}
use go_wsc.Base.Entries.{some→has, has→some}
use go_wsc.Hub.NodeIndexCache.{
  NodeQueryKey, NodeIndexEntry, NodeIndexCache, capacity, drop_entry, load, sweep, evict_expired,
  entry_of, take_back, settle_sweep, limit, store,
}
use go_wsc.Hub.NodeIndexCache.Sweep.{
  alive, sweep-lookup, sweep-IsMap, sweep-size, sweep-le, sweep-lt, one_less,
}

-- One entry for each key, the count exact, and no more entries than a bound.
pub record Holds (bound : ℕ) (c : NodeIndexCache) : Type 0 where
  pub distinct : Map.IsMap c.entries
  pub exact : c.size ≡ pos (length c.entries)
  pub bounded : length c.entries ≤ bound

drop_entry-Holds :
    (n : ℕ) (key : NodeQueryKey) (v : NodeIndexEntry) (c : NodeIndexCache)
    → Holds (n + 1) c
    → n + 1 < 2 ^ 63
    → Map.lookup key c.entries ≡ some v
    → Holds n (drop_entry key c)
unfolding drop_entry
drop_entry-Holds n key v c h small here =
    let shorter : length c.entries ≡ length (Map.erase key c.entries) + 1 =
      ground (arith, Map.length-erase key c.entries h.distinct, some→has key v c.entries here) in
    record {
      distinct = Map.erase-IsMap key c.entries h.distinct;
      exact =
          ap (λ x. int64 (x -ℤ pos 1)) (h.exact ∙ ap pos shorter)
          ∙ one_less (length (Map.erase key c.entries)) (omega (arith, h.bounded, shorter));
      bounded = omega (arith, h.bounded, shorter);
    }

-- A read takes no more out than the entry that it finds expired.
pub load-Holds :
    (n : ℕ) (now : ℤ) (key : NodeQueryKey) (c : NodeIndexCache)
    → Holds n c
    → n < 2 ^ 62
    → Holds n (load now key c).0
unfolding load
load-Holds n now key c h small = elim (Option-cases (Map.lookup key c.entries)) [
  | inl e ↦ rw (load, e) h
  | inr (v, e) ↦ elim (Bool-cases (ltb_ℤ v.expire_at now)) [
    | inl old ↦
        rw (load, e, old)
          (drop_entry-Holds n key v c
            (record { distinct = h.distinct; exact = h.exact; bounded = omega (arith, h.bounded) })
            (omega arith) e)
    | inr new ↦ rw (load, e, new) h
  ]
]

-- A sweep keeps what is held, and counts it.
evict_expired-Holds :
    (n : ℕ) (now : ℤ) (c : NodeIndexCache)
    → Holds n c
    → n < 2 ^ 63
    → Holds n (evict_expired now c).0
      × ((evict_expired now c).1 ≡ pos (length (evict_expired now c).0.entries))
unfolding evict_expired
evict_expired-Holds n now c h small =
    let count : (sweep now c.entries c.size).1 ≡ pos (length (sweep now c.entries c.size).0) =
      rw h.exact (
        sweep-size now c.entries 0 (length c.entries) (omega arith) (omega (arith, h.bounded))
        ∙ ap pos (omega arith)) in
    (
      record {
        distinct = sweep-IsMap now c.entries c.size h.distinct;
        exact = count;
        bounded = omega (arith, sweep-le now c.entries c.size, h.bounded);
      },
      count,
    )

take_back-Holds :
    (n : ℕ) (key : NodeQueryKey) (c : NodeIndexCache)
    → Holds (n + 1) c
    → n + 1 < 2 ^ 63
    → (Map.has key c.entries ≡ false → length c.entries ≤ n)
    → Holds n (take_back key c)
unfolding take_back
take_back-Holds n key c h small gone =
    if_cases (Holds n) (Map.has key c.entries) (drop_entry key c) c
      (λ e. let (v, here) = has→some key c.entries e in drop_entry-Holds n key v c h small here)
      (λ e. record { distinct = h.distinct; exact = h.exact; bounded = gone e })

settle_sweep-Holds :
    (n : ℕ) (key : NodeQueryKey) (c : NodeIndexCache) (count : ℤ)
    → Holds (n + 1) c
    → n + 1 < 2 ^ 63
    → count ≡ pos (length c.entries)
    → (Map.has key c.entries ≡ false → length c.entries ≤ n)
    → Holds n (settle_sweep (pos n) key (c, count))
unfolding settle_sweep
settle_sweep-Holds n key c count h small exact gone =
    if_cases (Holds n) (ltb_ℤ (pos n) count) (take_back key c) c
      (λ e. take_back-Holds n key c h small gone)
      (λ e. record { distinct = h.distinct; exact = h.exact; bounded = ground (arith, e, exact) })

-- The key of an entry that a sweep took is that of an expired one.
swept-le :
    (n : ℕ) (now : ℤ) (key : NodeQueryKey) (c : NodeIndexCache)
    → Holds (n + 1) c
    → Map.has key c.entries ≡ true
    → Map.has key (sweep now c.entries c.size).0 ≡ false
    → length (sweep now c.entries c.size).0 ≤ n
swept-le n now key c h there gone =
    let (v, here) = has→some key c.entries there in
    elim (Bool-cases (ltb_ℤ v.expire_at now)) [
      | inl old ↦ omega (arith, sweep-lt now key v c.entries c.size here old, h.bounded)
      | inr new ↦
          let kept : Map.lookup key (sweep now c.entries c.size).0 ≡ some v =
            sweep-lookup now key c.entries c.size h.distinct ∙ ap (alive now) here ∙ rw new refl in
          absurd (ground (arith, gone, some→has key v (sweep now c.entries c.size).0 kept))
    ]

limit-Holds :
    (n : ℕ) (later : ℤ) (key : NodeQueryKey) (c : NodeIndexCache)
    → Holds (n + 1) c
    → n + 1 < 2 ^ 63
    → capacity c ≡ pos n
    → Map.has key c.entries ≡ true
    → Holds n (limit later key c)
unfolding limit evict_expired
limit-Holds n later key c h small cap there =
    if_cases (Holds n) (ltb_ℤ (capacity c) c.size)
      (settle_sweep (capacity c) key (evict_expired later c)) c
      (λ e.
        subst (λ b. Holds n (settle_sweep b key (evict_expired later c))) (sym cap)
          (let (left, count) = evict_expired-Holds (n + 1) later c h small in
            settle_sweep-Holds n key (evict_expired later c).0 (evict_expired later c).1 left small
              count (swept-le n later key c h there)))
      (λ e. record {
        distinct = h.distinct;
        exact = h.exact;
        bounded = ground (arith, e, cap, h.exact);
      })

-- A write keeps the entries of the cache within its capacity, one for each key, and their count
-- exact, for a capacity below 2 to the 62nd, whatever the times of the write and of its sweep.
pub store-Holds :
    (n : ℕ) (now later : ℤ) (key : NodeQueryKey) (nodes : List String) (c : NodeIndexCache)
    → Holds n c
    → n < 2 ^ 62
    → capacity c ≡ pos n
    → Holds n (store now later key nodes c)
unfolding store
store-Holds n now later key nodes c h small cap =
    let v = entry_of now nodes c in
    let grown = Map.length-insert key v c.entries in
    let distinct = Map.insert-IsMap key v c.entries h.distinct in
    if_cases (Holds n) (Map.has key c.entries) _ _
      (λ e. record {
        distinct = distinct;
        exact = h.exact ∙ ap pos (ground (arith, grown, e));
        bounded = ground (arith, grown, e, h.bounded);
      })
      (λ e.
        limit-Holds n later key
          (record c { entries = Map.insert key v c.entries; size = int64 (c.size +ℤ pos 1) })
          (record {
            distinct = distinct;
            exact =
                ap (λ x. int64 (x +ℤ pos 1)) h.exact
                ∙ ap int64 (+ℤ-pos (length c.entries) 1)
                ∙ int64-pos (length c.entries + 1) (omega (arith, h.bounded))
                ∙ ap pos (ground (arith, grown, e));
            bounded = ground (arith, grown, e, h.bounded);
          })
          (omega arith) cap (Map.has-insert key key v c.entries ∙ rw (agrees_refl key) refl))
