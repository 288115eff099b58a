-- ===== src/Overload/Admission/Levels.antt =====
-- overload/admission.go: how the level moves from tick to tick.
use go_wsc.Base.{ℕ, suc, ◌≡◌, ◌⊎◌, Bool, ◌&&◌, arith, ltb, if◌then◌else◌, nat_eq, string_eq}
use go_wsc.Base.Int.{ℤ, pos, ◌+ℤ◌, ◌-ℤ◌, ◌≤ℤ◌, ◌<ℤ◌, ltb_ℤ, int32}
use go_wsc.Overload.Admission.{AdmissionGate, evaluate, over_high, under_low, backlog}

-- The level is one of the five.
abbrev pub IsDeclared : AdmissionGate → Type 0
IsDeclared g = (pos 0 ≤ℤ g.level) × (g.level ≤ℤ pos 4)

abbrev Moves : ℤ → ℤ → Type 0
Moves l l' = (l' ≡ l) ⊎ ((l <ℤ pos 4) × (l' ≡ l +ℤ pos 1)) ⊎ ((pos 0 <ℤ l) × (l' ≡ l -ℤ pos 1))

over_high-Moves : (g : AdmissionGate) (now : ℤ) → Moves g.level (over_high g now).level
unfolding over_high
over_high-Moves g now = ground arith

under_low-Moves : (g : AdmissionGate) (now : ℤ) → Moves g.level (under_low g now).level
unfolding under_low
under_low-Moves g now = split _
  where
    split :
        (b : Bool)
        → Moves g.level
            (if b && ltb_ℤ (pos 0) g.level
              then record g {
                level = g.level -ℤ pos 1;
                last_level_change_at = now;
                low_streak = pos 0;
              }
              else record g { low_streak = int32 (g.low_streak +ℤ pos 1) }).level
    split b = ground arith

evaluate-Moves : (g : AdmissionGate) (now : ℤ) → Moves g.level (evaluate g now).level
unfolding evaluate
evaluate-Moves g now = ground (arith, over_high-Moves g now, under_low-Moves g now)

Moves_bounds :
    (l l' : ℤ)
    → Moves l l'
    → pos 0 ≤ℤ l
    → l ≤ℤ pos 4
    → (pos 0 ≤ℤ l') × (l' ≤ℤ pos 4) × (l' ≤ℤ l +ℤ pos 1) × (l ≤ℤ l' +ℤ pos 1)
unfolding ◌+ℤ◌ ◌-ℤ◌
Moves_bounds l l' m lo hi = ground arith

-- A tick keeps the level among the five and moves it by one at most.
pub evaluate-IsDeclared :
    (g : AdmissionGate) (now : ℤ)
    → IsDeclared g
    → IsDeclared (evaluate g now)
      × ((evaluate g now).level ≤ℤ g.level +ℤ pos 1)
      × (g.level ≤ℤ (evaluate g now).level +ℤ pos 1)
evaluate-IsDeclared g now (lo, hi) =
    let m = Moves_bounds g.level (evaluate g now).level (evaluate-Moves g now) lo hi in
    ((m.0, m.1), m.2, m.3)

-- A tick that finds the backlog over the high watermark raises the level by one, up to 4, and
-- starts the count of low ticks anew.
pub evaluate-over_high :
    (g : AdmissionGate) (now : ℤ) (n : ℕ)
    → g.level ≡ pos n
    → g.high_watermark <ℤ backlog g
    → ((evaluate g now).level ≡ pos (if ltb n 4 then suc n else n))
      × ((evaluate g now).low_streak ≡ pos 0)
unfolding evaluate over_high ◌+ℤ◌
evaluate-over_high g now n h b = ground arith
