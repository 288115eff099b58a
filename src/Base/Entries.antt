-- ===== src/Base/Entries.antt =====
-- The entries of a map as a list, and what they sum to: what a `range` over the map meets.
use Prim.Native.Nat.{ℕ, ◌≤◌, ◌<◌}
use mathlib.Core.Path.{◌≡◌, refl, ap}
use mathlib.Core.Logic.{inl, inr}
use mathlib.Core.Bool.{Bool, true, false, ◌||◌}
use mathlib.Core.List.{[], ◌∷◌}
use mathlib.Core.Option.{some}
use native.Mathlib.Omega.{arith}
use native.Mathlib.Decide.{dec_lt}
use go_wsc.Base.Tests.{Eq, ◌==◌, Bool-cases, agrees_refl}
use go_wsc.Base.Lists.{one_of}
use go_wsc.Base.Map
use go_wsc.Base.Map.{Map}

module _ {ℓ κ} {K : Type ℓ} {V : Type κ} ⦃e : Eq K⦄ where
  pub one_of-keys : (k : K) (m : Map K V) → one_of k (Map.keys m) ≡ Map.has k m
  unfolding Map.has Map.lookup
  one_of-keys k [] = refl
  one_of-keys k ((i, v) ∷ m) = ground (arith, e.agrees_iff k i, e.agrees_iff i k, one_of-keys k m)

  pub has→some : (k : K) (m : Map K V) → Map.has k m ≡ true → (v : V) × (Map.lookup k m ≡ some v)
  unfolding Map.has
  has→some k m h = ground arith

  pub some→has : (k : K) (v : V) (m : Map K V) → Map.lookup k m ≡ some v → Map.has k m ≡ true
  unfolding Map.has
  some→has k v m h = ground (arith, h)

  first :
      (i k : K) (v w : V) (m : Map K V)
      → Map.lookup k ((i, w) ∷ m) ≡ some v
      → (i == k) ≡ true
      → w ≡ v
  unfolding Map.lookup
  first i k v w m h same = ground (arith, rw same at h)

  pub sum_at :
      (f : V → ℕ) (k : K) (v : V) (m : Map K V) → Map.lookup k m ≡ some v → f v ≤ Map.sum f m
  unfolding Map.lookup
  sum_at f k v [] h = ground (arith, h)
  sum_at f k v ((i, w) ∷ m) h = elim (Bool-cases (i == k)) [
    | inl same ↦ (omega (arith, ap f (first i k v w m h same)))
    | inr other ↦ omega (arith, sum_at f k v m (rw other at h))
  ]

  lookup_first : (k : K) (v : V) (m : Map K V) → Map.lookup k ((k, v) ∷ m) ≡ some v
  unfolding Map.lookup
  lookup_first k v m = rw (agrees_refl k) refl

  -- An entry is what the map holds under its key.
  pub lookup_later :
      (i k : K) (w v : V) (m : Map K V)
      → Map.IsMap ((i, w) ∷ m)
      → Map.lookup k m ≡ some v
      → Map.lookup k ((i, w) ∷ m) ≡ some v
  unfolding Map.lookup
  lookup_later i k w v m h p = elim (Bool-cases (i == k)) [
    | inl same ↦ absurd (ground (arith, h.0, rw (← (e.agrees_iff i k).0 same) at p))
    | inr other ↦ rw other p
  ]

  pub sum_positive :
      (f : V → ℕ) (m : Map K V)
      → Map.IsMap m
      → 0 < Map.sum f m
      → (k : K) × (v : V) × (Map.lookup k m ≡ some v) × (0 < f v)
  sum_positive f [] h p = absurd (omega arith)
  sum_positive f ((i, w) ∷ m) h p = elim (dec_lt 0 (f w)) [
    | yes q ↦ (i, w, lookup_first i w m, q)
    | no q ↦
        let (k, v, found, r) = sum_positive f m h.1 (omega arith) in
        (k, v, lookup_later i k w v m h found, r)
  ]

  -- A search of the entries.
  abbrev pub any : (V → Bool) → Map K V → Bool
  any p [] = false
  any p ((k, v) ∷ m) = p v || any p m

  pub any→some :
      (p : V → Bool) (m : Map K V)
      → Map.IsMap m
      → any p m ≡ true
      → (k : K) × (v : V) × (Map.lookup k m ≡ some v) × (p v ≡ true)
  any→some p [] h a = cc
  any→some p ((i, w) ∷ m) h a = elim (Bool-cases (p w)) [
    | inl q ↦ (i, w, lookup_first i w m, q)
    | inr q ↦
        let (k, v, found, r) = any→some p m h.1 (rw q at a) in
        (k, v, lookup_later i k w v m h found, r)
  ]

  pub some→any :
      (p : V → Bool) (k : K) (v : V) (m : Map K V)
      → Map.lookup k m ≡ some v
      → p v ≡ true
      → any p m ≡ true
  unfolding Map.lookup
  some→any p k v [] h q = cc
  some→any p k v ((i, w) ∷ m) h q = ground (arith, h, q, some→any p k v m)
