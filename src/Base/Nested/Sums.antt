-- ===== src/Base/Nested/Sums.antt =====
-- Maps of maps: what their entries count for, under one key and in all, and how many keys there are.
use Prim.Native.Nat.{ℕ, suc, ◌+◌}
use Prim.Native.String.{String}
use mathlib.Core.Path.{◌≡◌, refl, ap}
use mathlib.Core.Logic.{inl, inr}
use mathlib.Core.Bool.{◌&&◌, true, false}
use mathlib.Core.List.{[], ◌∷◌}
use mathlib.Core.Option.{Option, none, some}
use native.Mathlib.Omega.{arith}
use go_wsc.Base.Tests.{eqb, str_eq, string_eq, if◌then◌else◌, Bool-cases, Option-cases}
use go_wsc.Base.Lists.{length}
use go_wsc.Base.Map
use go_wsc.Base.Map.{Map, weight}
use go_wsc.Base.Nested.{
  Nested, IsNested, inner, find, put, drop, drop_from, settle, or_empty, inner-put, inner-drop,
  inner-IsMap,
}

module _ {ℓ} {V : Type ℓ} (f : V → ℕ) where
  abbrev pub sum_of : String → Nested V → ℕ
  sum_of key m = Map.sum f (inner key m)

  abbrev pub total_of : Nested V → ℕ
  total_of m = Map.sum (Map.sum f) m

  pub sum_of-put :
      (key id k : String) (v : V) (m : Nested V)
      → sum_of k (put key id v m) + (if str_eq key k then weight f (find key id m) else 0)
        ≡ sum_of k m + (if str_eq key k then f v else 0)
  sum_of-put key id k v m = rw (inner-put key k id v m) (elim (Bool-cases (str_eq key k)) [
    | inl same ↦
        rw (same, ← (string_eq.agrees_iff key k).0 same) (Map.sum-insert f id v (inner key m))
    | inr other ↦ rw other refl
  ])

  pub sum_of-drop :
      (key id k : String) (m : Nested V)
      → IsNested m
      → sum_of k (drop key id m) + (if str_eq key k then weight f (find key id m) else 0)
        ≡ sum_of k m
  sum_of-drop key id k m h = rw (inner-drop key k id m) (elim (Bool-cases (str_eq key k)) [
    | inl same ↦
        rw (same, ← (string_eq.agrees_iff key k).0 same)
          (Map.sum-erase f id (inner key m) (inner-IsMap key m h))
    | inr other ↦ rw other (omega arith)
  ])

  weight-sum : (o : Option (Map String V)) → weight (Map.sum f) o ≡ Map.sum f (or_empty o)
  weight-sum none = refl
  weight-sum (some m) = refl

  pub total_of-put :
      (key id : String) (v : V) (m : Nested V)
      → total_of (put key id v m) + weight f (find key id m) ≡ total_of m + f v
  unfolding put
  total_of-put key id v m = omega (
    arith,
    Map.sum-insert (Map.sum f) key (Map.insert id v (inner key m)) m,
    Map.sum-insert f id v (inner key m),
    weight-sum (Map.lookup key m),
  )

  total_of-settle :
      (key : String) (left : Map String V) (m : Nested V)
      → IsNested m
      → total_of (settle key left m) + sum_of key m ≡ total_of m + Map.sum f left
  unfolding settle
  total_of-settle key [] m h =
      omega (arith, Map.sum-erase (Map.sum f) key m h.distinct, weight-sum (Map.lookup key m))
  total_of-settle key (x ∷ left) m h =
      let kept : eqb (length (x ∷ left)) 0 ≡ false = ground arith in
      rw kept
        (omega (arith, Map.sum-insert (Map.sum f) key (x ∷ left) m, weight-sum (Map.lookup key m)))

  pub total_of-drop :
      (key id : String) (m : Nested V)
      → IsNested m
      → total_of (drop key id m) + weight f (find key id m) ≡ total_of m
  unfolding drop drop_from Map.lookup
  total_of-drop key id m h = elim (Option-cases (Map.lookup key m)) [
    | inl missing ↦ rw missing (omega arith)
    | inr (entries, p) ↦ rw p (
        omega (
          arith,
          total_of-settle key (Map.erase id entries) m h,
          ap (λ (o : Option (Map String V)). Map.sum f (or_empty o)) p,
          Map.sum-erase f id entries (h.filled key entries p).0,
        ))
  ]

module _ {ℓ} {V : Type ℓ} where
  pub length-put :
      (key id : String) (v : V) (m : Nested V)
      → length (put key id v m) ≡ (if Map.has key m then length m else suc (length m))
  unfolding put
  length-put key id v m = Map.length-insert key (Map.insert id v (inner key m)) m

  has_missing : (key : String) (m : Nested V) → Map.lookup key m ≡ none → Map.has key m ≡ false
  unfolding Map.has
  has_missing key m p = rw (p, Map.has)

  has_key :
      (key : String) (entries : Map String V) (m : Nested V)
      → Map.lookup key m ≡ some entries
      → Map.has key m ≡ true
  unfolding Map.has
  has_key key entries m p = rw (p, Map.has)

  pub length-drop :
      (key id : String) (m : Nested V)
      → IsNested m
      → length m ≡ (
          if Map.has key m && eqb (length (Map.erase id (inner key m))) 0
          then suc (length (drop key id m))
          else length (drop key id m))
  unfolding drop drop_from settle
  length-drop key id m h = elim (Option-cases (Map.lookup key m)) [
    | inl missing ↦ rw missing (ground (arith, has_missing key m missing))
    | inr (entries, p) ↦ rw p (elim (Bool-cases (eqb (length (Map.erase id entries)) 0)) [
      | inl gone ↦
          rw gone (ground (arith, has_key key entries m p, Map.length-erase key m h.distinct))
      | inr stays ↦
          rw stays (
            ground (arith, has_key key entries m p, Map.length-insert key (Map.erase id entries) m))
    ])
  ]
