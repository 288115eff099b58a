-- ===== src/Overload/Admission/Matrix.antt =====
-- overload/admission.go: the verdicts over the levels.
use go_wsc.Base.{ℕ, ◌≤◌, ◌≡◌, Bool, arith, nat_eq, string_eq}
use go_wsc.Base.Int.{pos}
use go_wsc.Models.HubMessage.{HubMessage, ephemeral, guaranteed, resolve_guarantee}
use go_wsc.Overload.Admission.{
  AdmissionGate, AdmitVerdict, verdict_admit, verdict_delay, verdict_offline, admit,
}

abbrev pub severity : AdmitVerdict → ℕ
severity verdict_admit = 0
severity verdict_delay = 1
severity verdict_offline = 2

abbrev pub at_level : AdmissionGate → ℕ → AdmissionGate
at_level g n = record g { level = pos n }

-- A guaranteed message is admitted at every level, declared or not.
pub admit-guaranteed :
    (g : AdmissionGate) (m : HubMessage) (is_broadcast : Bool)
    → resolve_guarantee m ≡ guaranteed
    → admit g m is_broadcast ≡ verdict_admit
unfolding admit
admit-guaranteed g m b h = rw h

-- So is an ephemeral message.
pub admit-ephemeral :
    (g : AdmissionGate) (m : HubMessage) (is_broadcast : Bool)
    → resolve_guarantee m ≡ ephemeral
    → admit g m is_broadcast ≡ verdict_admit
unfolding admit
admit-ephemeral g m b h = rw h (ground arith)

-- Between the declared levels the verdict on a message only gets more severe as the level rises.
pub admit_mono :
    (g : AdmissionGate) (m : HubMessage) (is_broadcast : Bool) (i j : ℕ)
    → i ≤ j
    → j ≤ 4
    → severity (admit (at_level g i) m is_broadcast)
      ≤ severity (admit (at_level g j) m is_broadcast)
unfolding admit
admit_mono g m b i j h k = ground arith
