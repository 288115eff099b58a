-- ===== src/Base/Shards.antt =====
-- A map that is split into shards by a hash of its keys is one map.
use Prim.Native.Nat.{ℕ, ◌+◌, ◌<◌}
use mathlib.Core.Path.{◌≡◌}
use mathlib.Core.Logic.{inl, inr}
use mathlib.Core.List.{List, []}
use mathlib.Core.Option.{Option, some}
use native.Mathlib.Decide.{ℕ_discrete}
use native.Mathlib.Omega.{arith}
use go_wsc.Base.Tests.{Eq, ◌==◌, if◌then◌else◌, Bool-cases}
use go_wsc.Base.Lists.{
  length, get_or, set, total, total-set, length-set, get_or-set_self, get_or-set_ne, All,
  All-get_or, All-set,
}
use go_wsc.Base.Map
use go_wsc.Base.Map.{Map, IsMap}

-- The sum of a number over the values of all shards.
abbrev pub mass {ℓ κ} : {K : Type ℓ} {V : Type κ} → (V → ℕ) → List (Map K V) → ℕ
mass f = total (Map.sum f)

module _ {ℓ κ} {K : Type ℓ} {V : Type κ} ⦃e : Eq K⦄ (hash : K → ℕ) where
  abbrev pub shard_of : K → List (Map K V) → Map K V
  shard_of k s = get_or s (hash k) []

  unfoldable pub find : K → List (Map K V) → Option V
  find k s = Map.lookup k (shard_of k s)

  unfoldable pub put : K → V → List (Map K V) → List (Map K V)
  put k v s = set s (hash k) (Map.insert k v (shard_of k s))

  pub find-put :
      (k j : K) (v : V) (s : List (Map K V))
      → hash k < length s
      → find j (put k v s) ≡ (if k == j then some v else find j s)
  unfolding find put
  find-put k j v s h = elim (Bool-cases (k == j)) [
    | inl same ↦
        rw (← (e.agrees_iff k j).0 same)
          (rw get_or-set_self (Map.lookup-insert k k v (shard_of k s)))
    | inr other ↦ elim (ℕ_discrete (hash k) (hash j)) [
      | yes p ↦ rw (← p) (rw get_or-set_self (Map.lookup-insert k j v (shard_of k s)))
      | no n ↦ rw other (rw (get_or-set_ne s (hash k) (hash j) _ [] n))
    ]
  ]

  -- Each shard is a map.
  abbrev pub AreMaps : List (Map K V) → Type κ
  AreMaps = All IsMap

  pub put-AreMaps : (k : K) (v : V) (s : List (Map K V)) → AreMaps s → AreMaps (put k v s)
  unfolding put
  put-AreMaps k v s h =
      All-set IsMap s (hash k) _
        (Map.insert-IsMap k v (shard_of k s) (All-get_or IsMap s (hash k) [] tt h)) h

  pub length-put : (k : K) (v : V) (s : List (Map K V)) → length (put k v s) ≡ length s
  unfolding put
  length-put k v s = length-set s (hash k) _

  pub mass-put :
      (f : V → ℕ) (k : K) (v : V) (s : List (Map K V))
      → hash k < length s
      → mass f (put k v s) + Map.weight f (find k s) ≡ mass f s + f v
  unfolding find put
  mass-put f k v s h = omega (
    arith,
    total-set (Map.sum f) s (hash k) (Map.insert k v (shard_of k s)) [] h,
    Map.sum-insert f k v (shard_of k s),
  )
