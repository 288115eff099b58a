-- ===== src/Hub/NodeIndexCache/Sweep.antt =====
-- hub/node_index_cache.go: what a sweep leaves.
use go_wsc.Base.{
  ℕ, ◌+◌, ◌^◌, ◌≤◌, ◌<◌, ◌≡◌, refl, sym, ap, ◌∙◌, inl, inr, true, Option, none, some, [], ◌∷◌,
  arith, if◌then◌else◌, Bool-cases, Eq, nat_eq, string_eq, pair_eq, ◌==◌, length,
}
use go_wsc.Base.Int.{ℤ, pos, ◌-ℤ◌, ltb_ℤ, int64, -ℤ-pos, int64-pos}
use go_wsc.Base.Map
use go_wsc.Base.Map.{Map}
use go_wsc.Hub.NodeIndexCache.{NodeIndexEntry, sweep}

-- An entry that a time does not find expired.
abbrev pub alive : ℤ → Option NodeIndexEntry → Option NodeIndexEntry
alive now none = none
alive now (some v) = if ltb_ℤ v.expire_at now then none else some v

pub one_less : (n : ℕ) → n + 1 < 2 ^ 63 → int64 (pos (n + 1) -ℤ pos 1) ≡ pos n
one_less n small =
    ap int64 (-ℤ-pos (n + 1) 1 (omega arith))
    ∙ ap int64 (ap pos (omega arith))
    ∙ int64-pos n (omega arith)

module _ {ℓ} {K : Type ℓ} ⦃q : Eq K⦄ (now : ℤ) where
  pub sweep-lookup :
      (k : K) (m : Map K NodeIndexEntry) (size : ℤ)
      → Map.IsMap m
      → Map.lookup k (sweep now m size).0 ≡ alive now (Map.lookup k m)
  unfolding sweep Map.lookup
  sweep-lookup k [] size h = refl
  sweep-lookup k ((key, v) ∷ m) size h = elim (Bool-cases (ltb_ℤ v.expire_at now)) [
    | inl old ↦ rw old (
        sweep-lookup k m (int64 (size -ℤ pos 1)) h.1 ∙ elim (Bool-cases (key == k)) [
          | inl same ↦ rw same (
              rw old (
                ap (alive now)
                  (ap (λ i. Map.lookup i m) (sym ((q.agrees_iff key k).0 same)) ∙ h.0)))
          | inr other ↦ rw other refl
        ])
    | inr new ↦ rw new (elim (Bool-cases (key == k)) [
      | inl same ↦ rw same (rw new refl)
      | inr other ↦ rw other (sweep-lookup k m size h.1)
    ])
  ]

  pub sweep-IsMap :
      (m : Map K NodeIndexEntry) (size : ℤ) → Map.IsMap m → Map.IsMap (sweep now m size).0
  unfolding sweep
  sweep-IsMap [] size h = h
  sweep-IsMap ((key, v) ∷ m) size h = elim (Bool-cases (ltb_ℤ v.expire_at now)) [
    | inl old ↦ rw old (sweep-IsMap m (int64 (size -ℤ pos 1)) h.1)
    | inr new ↦ rw new (sweep-lookup key m size h.1 ∙ ap (alive now) h.0, sweep-IsMap m size h.1)
  ]

  pub sweep-le : (m : Map K NodeIndexEntry) (size : ℤ) → length (sweep now m size).0 ≤ length m
  unfolding sweep
  sweep-le [] size = omega arith
  sweep-le ((key, v) ∷ m) size = elim (Bool-cases (ltb_ℤ v.expire_at now)) [
    | inl old ↦ rw old (omega (arith, sweep-le m (int64 (size -ℤ pos 1))))
    | inr new ↦ rw new (omega (arith, sweep-le m size))
  ]

  -- An entry that has expired makes the sweep leave fewer.
  pub sweep-lt :
      (k : K) (v : NodeIndexEntry) (m : Map K NodeIndexEntry) (size : ℤ)
      → Map.lookup k m ≡ some v
      → ltb_ℤ v.expire_at now ≡ true
      → length (sweep now m size).0 < length m
  unfolding sweep Map.lookup
  sweep-lt k v [] size here old = absurd (ground (arith, here))
  sweep-lt k v ((key, w) ∷ m) size here old = elim (Bool-cases (ltb_ℤ w.expire_at now)) [
    | inl gone ↦ rw gone (omega (arith, sweep-le m (int64 (size -ℤ pos 1))))
    | inr stays ↦ elim (Bool-cases (key == k)) [
      | inl same ↦
          let first : some w ≡ some v = rw same at here in
          absurd (ground (arith, first, old, stays))
      | inr other ↦
          let later : Map.lookup k m ≡ some v = rw other at here in
          rw stays (omega (arith, sweep-lt k v m size later old))
    ]
  ]

  -- The count stays exact, of the entries and any number besides.
  pub sweep-size :
      (m : Map K NodeIndexEntry) (n s : ℕ)
      → s ≡ n + length m
      → s < 2 ^ 63
      → (sweep now m (pos s)).1 ≡ pos (n + length (sweep now m (pos s)).0)
  unfolding sweep
  sweep-size [] n s e small = ap pos e
  sweep-size ((key, v) ∷ m) n s e small = elim (Bool-cases (ltb_ℤ v.expire_at now)) [
    | inl old ↦
        let one_more : s ≡ n + length m + 1 = omega (arith, e) in
        let less : int64 (pos s -ℤ pos 1) ≡ pos (n + length m) =
          ap (λ x. int64 (pos x -ℤ pos 1)) one_more
          ∙ one_less (n + length m) (omega (arith, one_more)) in
        rw (old, less) (sweep-size m n (n + length m) refl (omega (arith, one_more)))
    | inr new ↦ rw new (sweep-size m (n + 1) s (omega (arith, e)) small ∙ ap pos (omega arith))
  ]
