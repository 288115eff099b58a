-- ===== src/Overload/Admission/Stays.antt =====
-- overload/admission.go: the gate of a small high watermark.
use go_wsc.Base.{ℕ, ◌≤◌, ◌≡◌, refl, ◌∙◌, some, List, [], ◌∷◌, arith, nat_eq, string_eq}
use go_wsc.Base.Int.{ℤ, pos, ◌+ℤ◌, ◌≤ℤ◌}
use go_wsc.Overload.Admission.{
  AdmissionGate, evaluate, over_high, under_low, backlog, set_pending_counter, new_admission_gate,
  below_high,
}
use go_wsc.Overload.Admission.Recovery.{tick, run}

leb_trans : (a b c : ℤ) → a ≤ℤ b → b ≤ℤ c → a ≤ℤ c
leb_trans a b c h k = ground arith

leb_refl : (a : ℤ) → a ≤ℤ a
leb_refl a = ground arith

-- With a low watermark of 0 a tick never brings the level down, however small the backlog.
evaluate-zero_low :
    (g : AdmissionGate) (now : ℤ) → g.low_watermark ≡ pos 0 → g.level ≤ℤ (evaluate g now).level
unfolding evaluate backlog over_high ◌+ℤ◌
evaluate-zero_low g now h = ground arith

tick-low_watermark : (g : AdmissionGate) (t : ℤ × ℤ) → (tick g t).low_watermark ≡ g.low_watermark
unfolding tick evaluate backlog over_high under_low set_pending_counter
tick-low_watermark g (c, now) = ground arith

run-low_watermark :
    (g : AdmissionGate) (ts : List (ℤ × ℤ)) → (run g ts).low_watermark ≡ g.low_watermark
unfolding run
run-low_watermark g [] = refl
run-low_watermark g (t ∷ ts) = run-low_watermark (tick g t) ts ∙ tick-low_watermark g t

tick-rises : (g : AdmissionGate) (t : ℤ × ℤ) → g.low_watermark ≡ pos 0 → g.level ≤ℤ (tick g t).level
unfolding tick set_pending_counter
tick-rises g (c, now) h = evaluate-zero_low (set_pending_counter (some c) g) now h

run-rises :
    (g : AdmissionGate) (ts : List (ℤ × ℤ)) → g.low_watermark ≡ pos 0 → g.level ≤ℤ (run g ts).level
unfolding run
run-rises g [] h = leb_refl g.level
run-rises g (t ∷ ts) h =
    leb_trans g.level (tick g t).level (run (tick g t) ts).level (tick-rises g t h)
      (run-rises (tick g t) ts (tick-low_watermark g t ∙ h))

new_admission_gate-zero_low :
    (high low : ℕ) (interval : ℤ)
    → 1 ≤ high
    → high ≤ 3
    → high ≤ low
    → (new_admission_gate (pos high) (pos low) interval).low_watermark ≡ pos 0
unfolding new_admission_gate below_high
new_admission_gate-zero_low high low interval a b c = ground arith

-- A gate that the constructor makes of a high watermark of 1 to 3 and a low one that is not below
-- never comes down: after any ticks, no further ticks, however small the backlog they find, bring
-- its level below the one it has.
pub run-stays :
    (high low : ℕ) (interval : ℤ) (ts ts' : List (ℤ × ℤ))
    → 1 ≤ high
    → high ≤ 3
    → high ≤ low
    → let g = run (new_admission_gate (pos high) (pos low) interval) ts in
      g.level ≤ℤ (run g ts').level
run-stays high low interval ts ts' a b c =
    let made = new_admission_gate (pos high) (pos low) interval in
    run-rises (run made ts) ts'
      (run-low_watermark made ts ∙ new_admission_gate-zero_low high low interval a b c)
