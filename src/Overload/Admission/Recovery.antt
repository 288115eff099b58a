-- ===== src/Overload/Admission/Recovery.antt =====
-- overload/admission.go: how the gate comes down again.
use go_wsc.Base.{
  ℕ, zero, suc, ◌+◌, ◌*◌, ◌^◌, ◌≤◌, ◌<◌, ◌≡◌, refl, sym, ◌∙◌, some, List, [], ◌∷◌, arith, nat_eq,
  string_eq, length,
}
use native.Mathlib.Decide.{dec_lt}
use go_wsc.Base.Int.{ℤ, pos, ◌+ℤ◌, ◌-ℤ◌, ◌≤ℤ◌, ◌<ℤ◌, int32}
use go_wsc.Overload.Admission.{
  AdmissionGate, evaluate, under_low, backlog, set_pending_counter, new_admission_gate, below_high,
}

-- A tick at which the shared counter holds `c`.
unfoldable pub tick : AdmissionGate → ℤ × ℤ → AdmissionGate
tick g (c, now) = evaluate (set_pending_counter (some c) g) now

unfoldable pub run : AdmissionGate → List (ℤ × ℤ) → AdmissionGate
run g [] = g
run g (t ∷ ts) = run (tick g t) ts

-- A gate at the level `l`, `k` low ticks into a cooldown of `d`.
pub record Cools (low high : ℤ) (g : AdmissionGate) (l k d : ℕ) : Type 0 where
  pub level_reads : g.level ≡ pos l
  pub streak_reads : g.low_streak ≡ pos k
  pub cooldown_reads : g.cooldown_levels ≡ pos d
  pub low_reads : g.low_watermark ≡ low
  pub high_reads : g.high_watermark ≡ high

pub record IsTuned (low high : ℤ) (d : ℕ) : Type 0 where
  pub low_positive : pos 0 <ℤ low
  pub low_below : low ≤ℤ high
  pub cooldown_small : d < 2 ^ 31

quiet_tick :
    (low high : ℤ) (g : AdmissionGate) (c now : ℤ) (d : ℕ)
    → IsTuned low high d
    → g.low_watermark ≡ low
    → g.high_watermark ≡ high
    → c <ℤ low
    → tick g (c, now) ≡ under_low (set_pending_counter (some c) g) now
unfolding tick evaluate backlog set_pending_counter
quiet_tick low high g c now d t lr hr q = ground arith

streak_next : (z : ℤ) (k : ℕ) → z ≡ pos k → suc k < 2 ^ 31 → int32 (z +ℤ pos 1) ≡ pos (suc k)
unfolding ◌+ℤ◌
streak_next z k e h = rw e (ground arith)

int32_small : (z : ℤ) (d : ℕ) → z ≡ pos d → d < 2 ^ 31 → int32 z ≡ pos d
int32_small z d e h = rw e (ground arith)

pred_level : (z : ℤ) (l : ℕ) → z ≡ pos (suc l) → z -ℤ pos 1 ≡ pos l
unfolding ◌-ℤ◌
pred_level z l e = rw e (ground arith)

under_low-keeps :
    (g : AdmissionGate) (now : ℤ) (k d : ℕ)
    → g.low_streak ≡ pos k
    → g.cooldown_levels ≡ pos d
    → d < 2 ^ 31
    → suc k < d
    → under_low g now ≡ record g { low_streak = pos (suc k) }
unfolding under_low
under_low-keeps g now k d sr cr w h =
    rw (streak_next g.low_streak k sr (omega arith))
      (rw (int32_small g.cooldown_levels d cr w) (ground arith))

under_low-lowers :
    (g : AdmissionGate) (now : ℤ) (l k d : ℕ)
    → g.level ≡ pos (suc l)
    → g.low_streak ≡ pos k
    → g.cooldown_levels ≡ pos d
    → d < 2 ^ 31
    → suc k ≡ d
    → under_low g now ≡ record g { level = pos l; last_level_change_at = now; low_streak = pos 0 }
unfolding under_low
under_low-lowers g now l k d lr sr cr w h = rw (streak_next g.low_streak k sr (omega arith)) (
    rw (int32_small g.cooldown_levels d cr w) (rw (pred_level g.level l lr) (rw lr (ground arith))))

tick-keeps :
    (low high : ℤ) (g : AdmissionGate) (c now : ℤ) (l k d : ℕ)
    → IsTuned low high d
    → Cools low high g l k d
    → c <ℤ low
    → suc k < d
    → Cools low high (tick g (c, now)) l (suc k) d
unfolding set_pending_counter
tick-keeps low high g c now l k d t s q h =
    rw (quiet_tick low high g c now d t s.low_reads s.high_reads q) (
      rw
        (under_low-keeps (set_pending_counter (some c) g) now k d s.streak_reads s.cooldown_reads
          t.cooldown_small h)
        (record {
          level_reads = s.level_reads;
          streak_reads = refl;
          cooldown_reads = s.cooldown_reads;
          low_reads = s.low_reads;
          high_reads = s.high_reads;
        }))

tick-lowers :
    (low high : ℤ) (g : AdmissionGate) (c now : ℤ) (l k d : ℕ)
    → IsTuned low high d
    → Cools low high g (suc l) k d
    → c <ℤ low
    → suc k ≡ d
    → Cools low high (tick g (c, now)) l 0 d
unfolding set_pending_counter
tick-lowers low high g c now l k d t s q h =
    rw (quiet_tick low high g c now d t s.low_reads s.high_reads q) (
      rw
        (under_low-lowers (set_pending_counter (some c) g) now l k d s.level_reads s.streak_reads
          s.cooldown_reads t.cooldown_small h)
        (record {
          level_reads = refl;
          streak_reads = refl;
          cooldown_reads = s.cooldown_reads;
          low_reads = s.low_reads;
          high_reads = s.high_reads;
        }))

-- Every tick finds the counter below the low watermark.
abbrev pub AllQuiet : ℤ → List (ℤ × ℤ) → Type 0
AllQuiet low [] = Unit
AllQuiet low ((c, now) ∷ ts) = (c <ℤ low) × AllQuiet low ts

-- While fewer low ticks have passed than the cooldown asks for, the level stays where it is.
pub run-keeps :
    (low high : ℤ) (g : AdmissionGate) (l k d : ℕ) (ts : List (ℤ × ℤ))
    → IsTuned low high d
    → Cools low high g l k d
    → AllQuiet low ts
    → k + length ts < d
    → (run g ts).level ≡ g.level
unfolding run
run-keeps low high g l k d [] t s q h = refl
run-keeps low high g l k d ((c, now) ∷ ts) t s q h =
    let s' = tick-keeps low high g c now l k d t s q.0 (omega arith) in
    run-keeps low high (tick g (c, now)) l (suc k) d ts t s' q.1 (omega arith)
    ∙ s'.level_reads
    ∙ sym s.level_reads

-- After one cooldown of low ticks for each level, counted from inside a cooldown, the gate is back
-- at the normal level.
pub run-recovers :
    (low high : ℤ) (g : AdmissionGate) (l k d : ℕ) (ts : List (ℤ × ℤ))
    → IsTuned low high d
    → Cools low high g l k d
    → AllQuiet low ts
    → k < d
    → k + length ts ≡ l * d
    → (run g ts).level ≡ pos 0
unfolding run
run-recovers low high g zero k d [] t s q h e = s.level_reads
run-recovers low high g (suc l) k d [] t s q h e = absurd (omega arith)
run-recovers low high g zero k d (x ∷ ts) t s q h e = absurd (omega arith)
run-recovers low high g (suc l) k d ((c, now) ∷ ts) t s q h e = elim (dec_lt (suc k) d) [
  | yes more ↦
      run-recovers low high (tick g (c, now)) (suc l) (suc k) d ts t
        (tick-keeps low high g c now (suc l) k d t s q.0 more) q.1 more (omega arith)
  | no last ↦
      run-recovers low high (tick g (c, now)) l 0 d ts t
        (tick-lowers low high g c now l k d t s q.0 (omega arith)) q.1 (omega arith) (omega arith)
]

-- Of a high watermark of 4 and more it makes a gate whose low watermark is positive and below.
pub new_admission_gate-IsTuned :
    (high : ℕ) (low interval : ℤ)
    → 4 ≤ high
    → let g = new_admission_gate (pos high) low interval in
      (pos 0 <ℤ g.low_watermark) × (g.low_watermark <ℤ g.high_watermark)
unfolding new_admission_gate below_high
new_admission_gate-IsTuned high low interval a = ground arith
