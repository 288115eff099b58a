-- ===== src/Base/Map.antt =====
-- Go's maps, as lists of entries with distinct keys. `insert` is `m[k] = v`, `erase` is `delete`.
-- A `range` visits the entries in the order of the list; Go leaves that order open.
use Prim.Native.Nat.{ℕ, suc, ◌+◌}
use mathlib.Core.Path.{◌≡◌, refl}
use mathlib.Core.Bool.{Bool, true, false, not, ◌&&◌, ◌||◌}
use mathlib.Core.List.{List, [], ◌∷◌, map as map_list}
use mathlib.Core.Option.{Option, none, some}
use native.Mathlib.Omega.{arith}
use go_wsc.Base.Tests.{Eq, ◌==◌, if◌then◌else◌}
use go_wsc.Base.Lists.{length}

abbrev pub Map {ℓ κ} : Type ℓ → Type κ → Type (ℓ ⊔ κ)
Map K V = List (K × V)

-- What an entry counts for, 0 if it is missing.
abbrev pub weight {ℓ} : {V : Type ℓ} → (V → ℕ) → Option V → ℕ
weight f none = 0
weight f (some v) = f v

module _ {ℓ κ} {K : Type ℓ} {V : Type κ} where
  abbrev pub keys : Map K V → List K
  keys = map_list (λ e. e.0)

  abbrev pub values : Map K V → List V
  values = map_list (λ e. e.1)

  abbrev pub sum : (V → ℕ) → Map K V → ℕ
  sum f [] = 0
  sum f ((k, v) ∷ m) = f v + sum f m

module _ {ℓ κ} {K : Type ℓ} {V : Type κ} where
  pub sum-one : (m : Map K V) → sum (λ _. 1) m ≡ length m
  sum-one [] = refl
  sum-one ((k, v) ∷ m) = omega (arith, sum-one m)

module _ {ℓ κ} {K : Type ℓ} {V : Type κ} ⦃e : Eq K⦄ where
  unfoldable pub lookup : K → Map K V → Option V
  lookup key [] = none
  lookup key (entry ∷ m) = if entry.0 == key then some entry.1 else lookup key m

  unfoldable pub insert : K → V → Map K V → Map K V
  insert key value [] = (key, value) ∷ []
  insert key value (entry ∷ m) =
      if entry.0 == key then (key, value) ∷ m else entry ∷ insert key value m

  unfoldable pub erase : K → Map K V → Map K V
  erase key [] = []
  erase key (entry ∷ m) = if entry.0 == key then erase key m else entry ∷ erase key m

  unfoldable pub has : K → Map K V → Bool
  unfolding lookup
  has k m = elim (lookup k m) [ none ↦ false | some _ ↦ true ]

  -- The keys are distinct.
  abbrev pub IsMap : Map K V → Type κ
  IsMap [] = Unit
  IsMap ((k, v) ∷ m) = (lookup k m ≡ none) × IsMap m

  pub lookup-insert :
      (key other : K) (value : V) (m : Map K V)
      → lookup other (insert key value m) ≡ (if key == other then some value else lookup other m)
  unfolding lookup insert
  lookup-insert key other value [] = refl
  lookup-insert key other value ((first, kept) ∷ m) = ground (
    arith,
    e.agrees_iff key other,
    e.agrees_iff first key,
    e.agrees_iff first other,
    lookup-insert key other value m,
  )

  pub lookup-erase :
      (key other : K) (m : Map K V)
      → lookup other (erase key m) ≡ (if key == other then none else lookup other m)
  unfolding lookup erase
  lookup-erase key other [] = ground arith
  lookup-erase key other ((first, kept) ∷ m) = ground (
    arith,
    e.agrees_iff key other,
    e.agrees_iff first key,
    e.agrees_iff first other,
    lookup-erase key other m,
  )

  pub insert-IsMap : (k : K) (v : V) (m : Map K V) → IsMap m → IsMap (insert k v m)
  unfolding lookup insert
  insert-IsMap k v [] h = (refl, tt)
  insert-IsMap k v ((i, w) ∷ m) h =
      ground
        (arith, e.agrees_iff i k, e.agrees_iff k i, lookup-insert k i v m, insert-IsMap k v m h.1)

  pub erase-IsMap : (k : K) (m : Map K V) → IsMap m → IsMap (erase k m)
  unfolding lookup erase
  erase-IsMap k [] h = h
  erase-IsMap k ((i, w) ∷ m) h =
      ground (arith, e.agrees_iff i k, e.agrees_iff k i, lookup-erase k i m, erase-IsMap k m h.1)

  pub sum-insert :
      (f : V → ℕ) (k : K) (v : V) (m : Map K V)
      → sum f (insert k v m) + weight f (lookup k m) ≡ sum f m + f v
  unfolding lookup insert
  sum-insert f k v [] = omega arith
  sum-insert f k v ((i, w) ∷ m) = ground (arith, sum-insert f k v m)

  pub erase_absent : (k : K) (m : Map K V) → lookup k m ≡ none → erase k m ≡ m
  unfolding lookup erase
  erase_absent k [] h = refl
  erase_absent k ((i, w) ∷ m) h = ground (arith, erase_absent k m)

  pub sum-erase :
      (f : V → ℕ) (k : K) (m : Map K V)
      → IsMap m
      → sum f (erase k m) + weight f (lookup k m) ≡ sum f m
  unfolding lookup erase
  sum-erase f k [] h = omega arith
  sum-erase f k ((i, w) ∷ m) h =
      ground (arith, e.agrees_iff i k, erase_absent k m, sum-erase f k m h.1)

  pub length-insert :
      (k : K) (v : V) (m : Map K V)
      → length (insert k v m) ≡ (if has k m then length m else suc (length m))
  unfolding has insert
  length-insert k v [] = refl
  length-insert k v ((i, w) ∷ m) = ground (arith, length-insert k v m)

  pub length-erase :
      (k : K) (m : Map K V)
      → IsMap m
      → length m ≡ (if has k m then suc (length (erase k m)) else length (erase k m))
  unfolding has erase
  length-erase k [] h = refl
  length-erase k ((i, w) ∷ m) h =
      ground (arith, e.agrees_iff i k, erase_absent k m, length-erase k m h.1)

  pub has-insert : (k j : K) (v : V) (m : Map K V) → has j (insert k v m) ≡ (k == j || has j m)
  unfolding has
  has-insert k j v m = rw (has, lookup-insert k j v m) (ground arith)

  pub has-erase : (k j : K) (m : Map K V) → has j (erase k m) ≡ (not (k == j) && has j m)
  unfolding has
  has-erase k j m = rw (has, lookup-erase k j m) (ground arith)
