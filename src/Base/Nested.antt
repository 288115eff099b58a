-- ===== src/Base/Nested.antt =====
-- Maps of maps: what Go keeps as `map[string]map[string]V`, where an inner map is made for its first
-- entry and deleted with its last.
pub mod Sums
use Prim.Native.String.{String}
use mathlib.Core.Path.{◌≡◌, refl, subst}
use mathlib.Core.Logic.{◌≢◌, inl, inr}
use mathlib.Core.Bool.{false, ◌&&◌}
use mathlib.Core.List.{[], ◌∷◌}
use mathlib.Core.Option.{Option, none, some}
use native.Mathlib.Omega.{arith}
use go_wsc.Base.Tests.{eqb, str_eq, string_eq, if◌then◌else◌, Bool-cases, Option-cases}
use go_wsc.Base.Lists.{length}
use go_wsc.Base.Map
use go_wsc.Base.Map.{Map}

abbrev pub Nested {ℓ} : Type ℓ → Type ℓ
Nested V = Map String (Map String V)

-- A missing inner map reads as an empty one.
abbrev pub or_empty {ℓ} : {V : Type ℓ} → Option (Map String V) → Map String V
or_empty none = []
or_empty (some m) = m

module _ {ℓ} {V : Type ℓ} where
  abbrev pub inner : String → Nested V → Map String V
  inner key m = or_empty (Map.lookup key m)

  abbrev pub find : String → String → Nested V → Option V
  find key id m = Map.lookup id (inner key m)

  unfoldable pub put : String → String → V → Nested V → Nested V
  unfolding Map.lookup Map.insert
  put key id v m = Map.insert key (Map.insert id v (inner key m)) m

  -- What is left under a key replaces what was there, and an empty rest takes the key with it.
  unfoldable pub settle : String → Map String V → Nested V → Nested V
  unfolding Map.insert Map.erase
  settle key left m = if eqb (length left) 0 then Map.erase key m else Map.insert key left m

  pub drop_from : String → String → Nested V → Option (Map String V) → Nested V
  unfolding settle
  drop_from key id m none = m
  drop_from key id m (some entries) = settle key (Map.erase id entries) m

  unfoldable pub drop : String → String → Nested V → Nested V
  unfolding drop_from
  drop key id m = drop_from key id m (Map.lookup key m)

  -- The outer keys are distinct, and each inner map has distinct keys and an entry.
  abbrev pub IsFilled : Map String V → Type ℓ
  IsFilled entries = Map.IsMap entries × (length entries ≢ 0)

  pub record IsNested (m : Nested V) : Type ℓ where
    pub distinct : Map.IsMap m
    pub filled :
        (k : String) (entries : Map String V) → Map.lookup k m ≡ some entries → IsFilled entries

  pub inner-put :
      (key k id : String) (v : V) (m : Nested V)
      → inner k (put key id v m) ≡ (if str_eq key k then Map.insert id v (inner k m) else inner k m)
  unfolding put
  inner-put key k id v m =
      rw (Map.lookup-insert key k (Map.insert id v (inner key m)) m)
        (elim (Bool-cases (str_eq key k)) [
          | inl same ↦ rw same (rw ((string_eq.agrees_iff key k).0 same))
          | inr other ↦ rw other refl
        ])

  pub find-put :
      (key k id j : String) (v : V) (m : Nested V)
      → find k j (put key id v m) ≡ (if str_eq key k && str_eq id j then some v else find k j m)
  find-put key k id j v m = rw (inner-put key k id v m) (elim (Bool-cases (str_eq key k)) [
    | inl same ↦ rw same (Map.lookup-insert id j v (inner k m))
    | inr other ↦ rw other refl
  ])

  -- An empty rest reads as it is.
  pub inner-settle :
      (key k : String) (left : Map String V) (m : Nested V)
      → inner k (settle key left m) ≡ (if str_eq key k then left else inner k m)
  unfolding settle
  inner-settle key k [] m = rw (Map.lookup-erase key k m) (ground arith)
  inner-settle key k (x ∷ left) m =
      let kept : eqb (length (x ∷ left)) 0 ≡ false = ground arith in
      rw kept (rw (Map.lookup-insert key k (x ∷ left) m) (ground arith))

  pub inner-drop :
      (key k id : String) (m : Nested V)
      → inner k (drop key id m) ≡ (if str_eq key k then Map.erase id (inner k m) else inner k m)
  unfolding drop drop_from Map.erase
  inner-drop key k id m = elim (Option-cases (Map.lookup key m)) [
    | inl missing ↦ rw missing (elim (Bool-cases (str_eq key k)) [
      | inl same ↦ rw (same, ← (string_eq.agrees_iff key k).0 same) (rw missing refl)
      | inr other ↦ rw other refl
    ])
    | inr (entries, p) ↦ rw p (
        rw (inner-settle key k (Map.erase id entries) m) (elim (Bool-cases (str_eq key k)) [
          | inl same ↦ rw (same, ← (string_eq.agrees_iff key k).0 same) (rw p refl)
          | inr other ↦ rw other refl
        ]))
  ]

  pub find-drop :
      (key k id j : String) (m : Nested V)
      → find k j (drop key id m) ≡ (if str_eq key k && str_eq id j then none else find k j m)
  find-drop key k id j m = rw (inner-drop key k id m) (elim (Bool-cases (str_eq key k)) [
    | inl same ↦ rw same (Map.lookup-erase id j (inner k m))
    | inr other ↦ rw other refl
  ])

  pub inner-IsMap : (k : String) (m : Nested V) → IsNested m → Map.IsMap (inner k m)
  inner-IsMap k m h = elim (Option-cases (Map.lookup k m)) [
    | inl e ↦ rw e tt
    | inr (entries, e) ↦ rw e ((h.filled k entries e).0)
  ]

  length-insert_ne : (id : String) (v : V) (m : Map String V) → length (Map.insert id v m) ≢ 0
  unfolding Map.insert
  length-insert_ne id v [] e = omega arith
  length-insert_ne id v (x ∷ m) e = ground arith

  module _ (key : String) (entries : Map String V) (m : Nested V) (h : IsNested m) where
    filled_insert :
        IsFilled entries
        → (k : String) (found : Map String V) → Map.lookup k (Map.insert key entries m) ≡ some found
        → IsFilled found
    filled_insert f k found e = elim (Bool-cases (str_eq key k)) [
      | inl same ↦ subst IsFilled (cc (rw (Map.lookup-insert key k entries m, same) at e)) f
      | inr other ↦ h.filled k found (rw (Map.lookup-insert key k entries m, other) at e)
    ]

    insert-IsNested : IsFilled entries → IsNested (Map.insert key entries m)
    insert-IsNested f = record {
      distinct = Map.insert-IsMap key entries m h.distinct;
      filled = filled_insert f;
    }

    filled_erase :
        (k : String) (found : Map String V)
        → Map.lookup k (Map.erase key m) ≡ some found
        → IsFilled found
    filled_erase k found e = elim (Bool-cases (str_eq key k)) [
      | inl same ↦ cc (rw (Map.lookup-erase key k m, same) at e)
      | inr other ↦ h.filled k found (rw (Map.lookup-erase key k m, other) at e)
    ]

    pub settle-IsNested : Map.IsMap entries → IsNested (settle key entries m)
    unfolding settle
    settle-IsNested distinct = elim (Bool-cases (eqb (length entries) 0)) [
      | inl gone ↦
          rw gone (record { distinct = Map.erase-IsMap key m h.distinct; filled = filled_erase })
      | inr stays ↦ rw stays (insert-IsNested (distinct, λ e. ground arith))
    ]

  pub put-IsNested :
      (key id : String) (v : V) (m : Nested V) → IsNested m → IsNested (put key id v m)
  unfolding put
  put-IsNested key id v m h = insert-IsNested key (Map.insert id v (inner key m)) m h (
    Map.insert-IsMap id v (inner key m) (inner-IsMap key m h),
    length-insert_ne id v (inner key m),
  )

  pub drop-IsNested : (key id : String) (m : Nested V) → IsNested m → IsNested (drop key id m)
  unfolding drop drop_from
  drop-IsNested key id m h = elim (Option-cases (Map.lookup key m)) [
    | inl missing ↦ rw missing h
    | inr (entries, p) ↦ rw p (
        settle-IsNested key (Map.erase id entries) m h
          (Map.erase-IsMap id entries (h.filled key entries p).0))
  ]
