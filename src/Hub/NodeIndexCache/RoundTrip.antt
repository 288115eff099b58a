-- ===== src/Hub/NodeIndexCache/RoundTrip.antt =====
-- hub/node_index_cache.go: what a read finds after a write.
use go_wsc.Base.{
  ℕ, ◌+◌, ◌^◌, ◌<◌, String, ◌≡◌, refl, sym, ap, ◌∙◌, ◌⊎◌, inl, inr, true, false, Option, none, some,
  List, arith, if◌then◌else◌, Bool-cases, Option-cases, nat_eq, string_eq, pair_eq, ◌==◌,
  agrees_refl, length,
}
use go_wsc.Base.Int.{ℤ, pos, ◌+ℤ◌, ◌≤ℤ◌, ltb_ℤ, int64, +ℤ-pos, int64-pos}
use go_wsc.Base.Map
use go_wsc.Base.Map.{Map}
use go_wsc.Base.Tests.{if_cases}
use go_wsc.Hub.NodeIndexCache.{
  NodeQueryKey, NodeIndexEntry, NodeIndexCache, capacity, drop_entry, load, evict_expired, entry_of,
  take_back, settle_sweep, limit, store,
}
use go_wsc.Hub.NodeIndexCache.Sweep.{alive, sweep-lookup}
use go_wsc.Hub.NodeIndexCache.Bounds.{Holds}

abbrev pub nodes_of : Option NodeIndexEntry → Option (List String)
nodes_of none = none
nodes_of (some v) = some v.nodes

load-alive :
    (t : ℤ) (k : NodeQueryKey) (c : NodeIndexCache)
    → (load t k c).1 ≡ nodes_of (alive t (Map.lookup k c.entries))
unfolding load
load-alive t k c = elim (Option-cases (Map.lookup k c.entries)) [
  | inl e ↦ rw (load, e) refl
  | inr (v, e) ↦ elim (Bool-cases (ltb_ℤ v.expire_at t)) [
    | inl old ↦ rw (load, e, old) refl
    | inr new ↦ rw (load, e, new) refl
  ]
]

module _ (later t : ℤ) (after : later ≤ℤ t) where
  alive-alive : (o : Option NodeIndexEntry) → alive t (alive later o) ≡ alive t o
  alive-alive none = refl
  alive-alive (some v) = elim (Bool-cases (ltb_ℤ v.expire_at later)) [
    | inl old ↦
        let still : ltb_ℤ v.expire_at t ≡ true = ground (arith, old) in rw old (rw still refl)
    | inr new ↦ rw new refl
  ]

  module _ (key k : NodeQueryKey) (differs : key == k ≡ false) where
    -- Two caches that a read of this key at this time does not tell apart.
    Same : NodeIndexCache → NodeIndexCache → Type 0
    Same c d = alive t (Map.lookup k c.entries) ≡ alive t (Map.lookup k d.entries)

    drop_entry-Same : (c : NodeIndexCache) → Same (drop_entry key c) c
    unfolding drop_entry Same
    drop_entry-Same c = ap (alive t) (Map.lookup-erase key k c.entries ∙ rw differs refl)

    take_back-Same : (c : NodeIndexCache) → Same (take_back key c) c
    unfolding take_back Same
    take_back-Same c =
        if_cases (λ d. Same d c) (Map.has key c.entries) (drop_entry key c) c
          (λ e. drop_entry-Same c) (λ e. refl)

    evict_expired-Same :
        (c : NodeIndexCache) → Map.IsMap c.entries → Same (evict_expired later c).0 c
    unfolding evict_expired Same
    evict_expired-Same c h =
        ap (alive t) (sweep-lookup later k c.entries c.size h)
        ∙ alive-alive (Map.lookup k c.entries)

    limit-Same : (c : NodeIndexCache) → Map.IsMap c.entries → Same (limit later key c) c
    unfolding limit settle_sweep Same
    limit-Same c h =
        let swept = evict_expired later c in
        if_cases (λ d. Same d c) (ltb_ℤ (capacity c) c.size) (settle_sweep (capacity c) key swept) c
          (λ e.
            if_cases (λ d. Same d c) (ltb_ℤ (capacity c) swept.1) (take_back key swept.0) swept.0
              (λ e. take_back-Same swept.0 ∙ evict_expired-Same c h) (λ e. evict_expired-Same c h))
          (λ e. refl)

    -- A write leaves what a read of another key finds, at a time from that of its sweep on.
    store-load_other :
        (now : ℤ) (nodes : List String) (c : NodeIndexCache)
        → Map.IsMap c.entries
        → (load t k (store now later key nodes c)).1 ≡ (load t k c).1
    unfolding store Same
    store-load_other now nodes c h =
        let v = entry_of now nodes c in
        let inserted : alive t (Map.lookup k (Map.insert key v c.entries))
            ≡ alive t (Map.lookup k c.entries) =
          ap (alive t) (Map.lookup-insert key k v c.entries ∙ rw differs refl) in
        load-alive t k (store now later key nodes c)
        ∙ ap nodes_of (
            if_cases (λ d. Same d c) (Map.has key c.entries) _ _ (λ e. inserted)
              (λ e.
                limit-Same
                  (record c {
                    entries = Map.insert key v c.entries;
                    size = int64 (c.size +ℤ pos 1);
                  })
                  (Map.insert-IsMap key v c.entries h)
                ∙ inserted))
        ∙ sym (load-alive t k c)

one_more :
    (n : ℕ) (c : NodeIndexCache)
    → Holds n c
    → n < 2 ^ 62
    → int64 (c.size +ℤ pos 1) ≡ pos (length c.entries + 1)
one_more n c h small =
    ap (λ x. int64 (x +ℤ pos 1)) h.exact
    ∙ ap int64 (+ℤ-pos (length c.entries) 1)
    ∙ int64-pos (length c.entries + 1) (omega (arith, h.bounded))

module _ (t : ℤ) (key : NodeQueryKey) (v : NodeIndexEntry) where
  -- A read finds the nodes of an entry until its life is over.
  abbrev Found : NodeIndexCache → Type 0
  Found c =
      nodes_of (alive t (Map.lookup key c.entries))
      ≡ (if ltb_ℤ v.expire_at t then none else some v.nodes)

  found_at : (c : NodeIndexCache) → Map.lookup key c.entries ≡ some v → Found c
  found_at c e =
      ap (λ o. nodes_of (alive t o)) e
      ∙ elim (Bool-cases (ltb_ℤ v.expire_at t)) [ inl old ↦ rw old refl | inr new ↦ rw new refl ]

  found_within :
      (n : ℕ) (later : ℤ) (c : NodeIndexCache)
      → Map.lookup key c.entries ≡ some v
      → capacity c ≡ pos n
      → ltb_ℤ (pos n) c.size ≡ false
      → Found (limit later key c)
  unfolding limit
  found_within n later c e full fits =
      if_cases Found (ltb_ℤ (capacity c) c.size)
        (settle_sweep (capacity c) key (evict_expired later c)) c
        (λ over. absurd (ground (arith, over, full, fits))) (λ within. found_at c e)

-- A write that replaces an entry, or that finds room, is found until its life is over.
store-load_self :
    (n : ℕ) (now later t : ℤ) (key : NodeQueryKey) (nodes : List String) (c : NodeIndexCache)
    → Holds n c
    → n < 2 ^ 62
    → capacity c ≡ pos n
    → (Map.has key c.entries ≡ true) ⊎ (length c.entries < n)
    → (load t key (store now later key nodes c)).1
      ≡ (if ltb_ℤ (entry_of now nodes c).expire_at t then none else some nodes)
unfolding store entry_of
store-load_self n now later t key nodes c h small full room =
    let v : NodeIndexEntry = entry_of now nodes c in
    let here : Map.lookup key (Map.insert key v c.entries) ≡ some v =
      Map.lookup-insert key key v c.entries ∙ rw (agrees_refl key) refl in
    let replaced : NodeIndexCache = record c { entries = Map.insert key v c.entries } in
    let grown : NodeIndexCache = record replaced { size = int64 (c.size +ℤ pos 1) } in
    load-alive t key (store now later key nodes c)
    ∙ if_cases (Found t key v) (Map.has key c.entries) replaced (limit later key grown)
        (λ e. found_at t key v replaced here)
        (λ e.
          found_within t key v n later grown here full
            (ground (arith, one_more n c h small, room, e)))

-- In a cache with its count exact, within a capacity below 2 to the 62nd, a read after a write, at
-- a time from that of the sweep on, finds for the key that is written its nodes until their life is
-- over, if the write replaces an entry or finds room, and for any other key what it found before.
pub store-load :
    (n : ℕ) (now later t : ℤ) (key : NodeQueryKey) (nodes : List String) (c : NodeIndexCache)
    → Holds n c
    → n < 2 ^ 62
    → capacity c ≡ pos n
    → (Map.has key c.entries ≡ true) ⊎ (length c.entries < n)
    → later ≤ℤ t
    → ((load t key (store now later key nodes c)).1
        ≡ (if ltb_ℤ (entry_of now nodes c).expire_at t then none else some nodes))
      × ((k : NodeQueryKey)
          → key == k ≡ false
          → (load t k (store now later key nodes c)).1 ≡ (load t k c).1)
store-load n now later t key nodes c h small full room after = (
  store-load_self n now later t key nodes c h small full room,
  λ k differs. store-load_other later t after key k differs now nodes c h.distinct,
)
