-- ===== src/Overload/Examples.antt =====
-- The theorems on overload/ at concrete inputs.
mod Counters
mod Buffers
mod Queue
use go_wsc.Base.{
  ◌+◌, ◌*◌, ◌≤◌, ◌≡◌, refl, true, false, some, List, ◌∷◌, arith, nat_eq, string_eq, pair_eq, [],
}
use go_wsc.Base.Int.{ℤ, pos, ◌+ℤ◌, ◌≤ℤ◌}
use go_wsc.Models.HubMessage.{resolve_guarantee}
use go_wsc.Models.Samples.{chat, payment, typing}
use go_wsc.Overload.Shaper.{Shaper, interval, allowed, new_shaper}
use go_wsc.Overload.Shaper.Rate.{Reads, at, allowed-bound, allowed-Paced}
use go_wsc.Overload.Admission.{
  AdmissionGate, new_admission_gate, evaluate, backlog, admit, verdict_admit, verdict_offline,
  set_pending_counter,
}
use go_wsc.Overload.Admission.Levels.{IsDeclared, evaluate-IsDeclared, evaluate-over_high}
use go_wsc.Overload.Admission.Recovery.{IsTuned, Cools, run, run-keeps, run-recovers}
use go_wsc.Overload.Admission.Stays.{run-stays}
use go_wsc.Overload.Admission.Matrix.{
  at_level, severity, admit-guaranteed, admit-ephemeral, admit_mono,
}

-- A shaper of 1000 calls a second, from the time 0.
abbrev thousand : Shaper
thousand = new_shaper (pos 1000) (pos 0)

thousand-Reads : Reads thousand 0 100000000 1000000
unfolding new_shaper interval
thousand-Reads = record { tat_reads = refl; burst_reads = refl; interval_reads = refl }

allowed-bound_example :
    allowed thousand (at (0 ∷ 0 ∷ 1000 ∷ [])) * 1000000 + 0 ≤ 1000 + 100000000 + 1000000
allowed-bound_example =
    allowed-bound thousand 0 100000000 1000000 1000 (0 ∷ 0 ∷ 1000 ∷ []) thousand-Reads (omega arith)
      (omega arith) (omega arith) (omega arith, (omega arith, (omega arith, tt)))

allowed-Paced_example : allowed thousand (at (1000000 ∷ 2000000 ∷ [])) ≡ 2
allowed-Paced_example =
    allowed-Paced thousand 0 100000000 1000000 2000000 0 (1000000 ∷ 2000000 ∷ []) thousand-Reads
      (omega arith) (omega arith) (omega arith) (omega arith, (omega arith, tt))
      (omega arith, (omega arith, tt))

-- The gate of the watermarks 800 and 200, at its default interval, and the same at level 2.
abbrev gate : AdmissionGate
gate = new_admission_gate (pos 800) (pos 200) (pos 0)

abbrev raised : AdmissionGate
raised = at_level gate 2

abbrev quiet_ticks : List (ℤ × ℤ)
quiet_ticks =
    (pos 10, pos 1)
    ∷ (pos 10, pos 2)
    ∷ (pos 10, pos 3)
    ∷ (pos 10, pos 4)
    ∷ (pos 10, pos 5)
    ∷ (pos 10, pos 6)
    ∷ []

raised-Cools : Cools (pos 200) (pos 800) raised 2 0 3
unfolding new_admission_gate
raised-Cools = record {
  level_reads = refl;
  streak_reads = refl;
  cooldown_reads = refl;
  low_reads = refl;
  high_reads = refl;
}

tuned : IsTuned (pos 200) (pos 800) 3
tuned = record { low_positive = omega arith; low_below = omega arith; cooldown_small = omega arith }

run-recovers_example : (run raised quiet_ticks).level ≡ pos 0
run-recovers_example =
    run-recovers (pos 200) (pos 800) raised 2 0 3 quiet_ticks tuned raised-Cools
      (omega arith, (omega arith, (omega arith, (omega arith, (omega arith, (omega arith, tt))))))
      (omega arith) refl

-- The gate with 900 messages pending.
abbrev busy : AdmissionGate
busy = set_pending_counter (some (pos 900)) raised

-- Raised by one busy tick, the gate stays at level 4 over the quiet ones.
abbrev busy_ticks : List (ℤ × ℤ)
busy_ticks = (pos 9, pos 1) ∷ []

abbrev tiny : AdmissionGate
tiny = run (new_admission_gate (pos 2) (pos 5) (pos 0)) busy_ticks

run-stays_example : tiny.level ≤ℤ (run tiny quiet_ticks).level
run-stays_example =
    run-stays 2 5 (pos 0) busy_ticks quiet_ticks (omega arith) (omega arith) (omega arith)

admit-ephemeral_example : admit (at_level gate 4) typing true ≡ verdict_admit
unfolding resolve_guarantee
admit-ephemeral_example = admit-ephemeral (at_level gate 4) typing true refl

admit_mono_example :
    severity (admit (at_level gate 1) chat false) ≤ severity (admit (at_level gate 3) chat false)
admit_mono_example = admit_mono gate chat false 1 3 (omega arith) (omega arith)
