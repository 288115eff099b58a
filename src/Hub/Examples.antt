-- ===== src/Hub/Examples.antt =====
-- The theorems on hub/ at concrete inputs.
use go_wsc.Base.{
  ◌≡◌, refl, inr, false, none, some, [], ◌∷◌, arith, if◌then◌else◌, nat_eq, string_eq, pair_eq,
  ◌==◌,
}
use go_wsc.Base.Int.{pos, ltb_ℤ}
use go_wsc.Base.Map
use go_wsc.Base.Map.{Map}
use go_wsc.Hub.NodeIndexCache.{NodeQueryKey, NodeIndexCache, capacity, load, store, entry_of}
use go_wsc.Hub.NodeIndexCache.Bounds.{Holds, store-Holds}
use go_wsc.Hub.NodeIndexCache.RoundTrip.{store-load}

abbrev alice : NodeQueryKey
alice = ("app", ("", "alice"))

abbrev bob : NodeQueryKey
bob = ("app", ("", "bob"))

abbrev cache : NodeIndexCache
cache = record {
  entries = (alice, record { nodes = "n1" ∷ []; expire_at = pos 9 }) ∷ [];
  size = pos 1;
  ttl = pos 100;
  max = pos 2;
}

cache-Holds : Holds 2 cache
unfolding Map.lookup
cache-Holds = record { distinct = (refl, tt); exact = refl; bounded = omega arith }

two : capacity cache ≡ pos 2
unfolding capacity
two = refl

store-Holds_example : Holds 2 (store (pos 50) (pos 51) bob ("n2" ∷ []) cache)
store-Holds_example =
    store-Holds 2 (pos 50) (pos 51) bob ("n2" ∷ []) cache cache-Holds (omega arith) two

store-load_example :
    ((load (pos 60) bob (store (pos 50) (pos 51) bob ("n2" ∷ []) cache)).1 ≡ (
      if ltb_ℤ (entry_of (pos 50) ("n2" ∷ []) cache).expire_at (pos 60)
      then none
      else some ("n2" ∷ [])))
    × ((k : NodeQueryKey)
        → bob == k ≡ false
        → (load (pos 60) k (store (pos 50) (pos 51) bob ("n2" ∷ []) cache)).1
          ≡ (load (pos 60) k cache).1)
store-load_example =
    store-load 2 (pos 50) (pos 51) (pos 60) bob ("n2" ∷ []) cache cache-Holds (omega arith) two
      (inr (omega arith)) (omega arith)
