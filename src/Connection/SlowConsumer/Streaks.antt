-- ===== src/Connection/SlowConsumer/Streaks.antt =====
-- connection/slow_consumer.go: which rounds evict a client.
use go_wsc.Base.{
  ℕ, zero, suc, ◌%◌, ◌≤◌, ◌<◌, ◌≡◌, refl, sym, ap, ◌∙◌, ◌↔◌, inl, inr, Bool, true, false, not,
  Option, none, some, List, [], ◌∷◌, arith, eqb, if◌then◌else◌, Bool-cases, nat_eq, string_eq,
  pair_eq,
}
use go_wsc.Base.Int.{ℤ, pos, ◌+ℤ◌, ◌-ℤ◌, ltb_ℤ}
use go_wsc.Connection.SlowConsumer.{
  slow_consumer_threshold_ratio, SlowConsumerState, Measure, recovers, records, warns, evicts,
  state_or_new, escalate, govern,
}

-- What is kept of a client after rounds with these ratios, the newest first.
unfoldable pub after : List ℤ → Option SlowConsumerState
unfolding govern
after [] = none
after (ratio ∷ older) = (govern ratio (after older)).0

unfoldable pub measure_of : List ℤ → Measure
unfolding after
measure_of [] = recovers
measure_of (ratio ∷ older) = (govern ratio (after older)).1

abbrev pub is_slow : ℤ → Bool
is_slow ratio = not (ltb_ℤ ratio slow_consumer_threshold_ratio)

-- The slow rounds in a row since the last one that was not slow or that evicted the client.
abbrev pub streak : List ℤ → ℕ
streak [] = 0
streak (ratio ∷ older) =
    let n = streak older in if is_slow ratio then (if eqb n 2 then 0 else suc n) else 0

-- What is kept after some slow rounds in a row.
abbrev pub kept : ℕ → Option SlowConsumerState
kept zero = none
kept (suc n) = some (record { consecutive = pos (suc n); warned = eqb (suc n) 2 })

-- The measure of one slow round more.
abbrev pub next_measure : ℕ → Measure
next_measure n = if eqb n 2 then evicts else if eqb n 1 then warns else records

slow_ltb : (ratio : ℤ) → is_slow ratio ≡ true → ltb_ℤ ratio slow_consumer_threshold_ratio ≡ false
slow_ltb ratio h = ground (arith, h)

govern_slow :
    (ratio : ℤ) (n : ℕ)
    → n ≤ 2
    → is_slow ratio ≡ true
    → govern ratio (kept n) ≡ (kept (if eqb n 2 then 0 else suc n), next_measure n)
unfolding govern state_or_new escalate ◌+ℤ◌ ◌-ℤ◌
govern_slow ratio zero le slow = rw (slow_ltb ratio slow) refl
govern_slow ratio (suc zero) le slow = rw (slow_ltb ratio slow) refl
govern_slow ratio (suc (suc zero)) le slow = rw (slow_ltb ratio slow) refl
govern_slow ratio (suc (suc (suc n))) le slow = absurd (omega (arith, le))

govern_fast :
    (ratio : ℤ) (o : Option SlowConsumerState)
    → is_slow ratio ≡ false
    → govern ratio o ≡ (none, recovers)
unfolding govern
govern_fast ratio o fast =
    let below : ltb_ℤ ratio slow_consumer_threshold_ratio ≡ true = ground (arith, fast) in
    rw below refl

streak_le : (rounds : List ℤ) → streak rounds ≤ 2
streak_le [] = omega arith
streak_le (ratio ∷ older) = ground (arith, streak_le older)

after-kept : (rounds : List ℤ) → after rounds ≡ kept (streak rounds)
unfolding after
after-kept [] = refl
after-kept (ratio ∷ older) = elim (Bool-cases (is_slow ratio)) [
  | inl slow ↦
      ap (λ o. (govern ratio o).0) (after-kept older)
      ∙ ap (λ r. r.0) (govern_slow ratio (streak older) (streak_le older) slow)
      ∙ rw slow refl
  | inr fast ↦ ap (λ r. r.0) (govern_fast ratio (after older) fast) ∙ rw fast refl
]

-- The slow rounds in a row, the newest ones.
abbrev pub row : List ℤ → ℕ
row [] = 0
row (ratio ∷ older) = if is_slow ratio then suc (row older) else 0

streak-row : (rounds : List ℤ) → streak rounds ≡ row rounds % 3
streak-row [] = omega arith
streak-row (ratio ∷ older) = ground (arith, streak-row older)

next-evicts : (n : ℕ) → next_measure n ≡ evicts ↔ n ≡ 2
next-evicts n = (λ e. ground (arith, e), λ e. ground (arith, e))

measure_slow :
    (ratio : ℤ) (older : List ℤ)
    → is_slow ratio ≡ true
    → measure_of (ratio ∷ older) ≡ next_measure (streak older)
unfolding measure_of
measure_slow ratio older slow =
    ap (λ o. (govern ratio o).1) (after-kept older)
    ∙ ap (λ r. r.1) (govern_slow ratio (streak older) (streak_le older) slow)

measure_fast :
    (ratio : ℤ) (older : List ℤ) → is_slow ratio ≡ false → measure_of (ratio ∷ older) ≡ recovers
unfolding measure_of
measure_fast ratio older fast = ap (λ r. r.1) (govern_fast ratio (after older) fast)

measure_nil : measure_of [] ≡ recovers
unfolding measure_of
measure_nil = refl

-- A round evicts a client exactly when the slow rounds in a row, up to it, are three or a multiple of it.
pub measure_of-evicts :
    (rounds : List ℤ) → measure_of rounds ≡ evicts ↔ ((0 < row rounds) × (row rounds % 3 ≡ 0))
measure_of-evicts [] =
    (λ e. absurd (ground (arith, sym measure_nil ∙ e)), λ h. absurd (omega (arith, h.0)))
measure_of-evicts (ratio ∷ older) = elim (Bool-cases (is_slow ratio)) [
  | inl slow ↦
      rw (measure_slow ratio older slow, slow)
        (
          λ e. (omega arith, omega (arith, (next-evicts (streak older)).0 e, streak-row older)),
          λ h. (next-evicts (streak older)).1 (omega (arith, h.1, streak-row older)),
        )
  | inr fast ↦
      rw (measure_fast ratio older fast, fast)
        (λ e. absurd (ground (arith, e)), λ h. absurd (omega (arith, h.0)))
]
