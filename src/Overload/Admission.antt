-- ===== src/Overload/Admission.antt =====
-- overload/admission.go: the admission gate. An atomic field is a field; the shared counter behind the
-- pointer `pending` is its value, if the pointer is set. `time.Now().UnixNano()` is the argument `now`.
pub mod Levels
pub mod Recovery
pub mod Stays
pub mod Matrix
use go_wsc.Base.{
  ℕ, zero, suc, ◌+◌, ◌-◌, ◌*◌, ◌/◌, ◌%◌, ◌^◌, ◌≤◌, ◌<◌, String, ◌≡◌, refl, sym, ap, ◌∙◌, ◌≢◌, ◌↔◌,
  ◌⊎◌, inl, inr, Bool, true, false, not, ◌&&◌, ◌||◌, Option, none, some, List, [], ◌∷◌, ◌++◌, map,
  arith, eq_iff, ltb, leb, eqb, str_eq, if◌then◌else◌, ltb→lt, lt→ltb, leb→le, eqb_iff, Bool-cases,
  Option-cases, Eq, nat_eq, string_eq, ◌==◌, agrees_refl, length, length-append, get_or, total,
  total-append, one_of, every, one_of-every,
}
use go_wsc.Base.Int.{
  ℤ, pos, negsuc, pos_part, neg_part, ◌+ℤ◌, ◌-ℤ◌, ◌*ℤ◌, ◌≤ℤ◌, ◌<ℤ◌, ltb_ℤ, leb_ℤ, eqb_ℤ, int64,
  int32, +ℤ_parts, -ℤ_parts, eq_of_parts, int_laws, +ℤ-pos, -ℤ-pos, int64-pos,
}
use go_wsc.Models.HubMessage.{
  HubMessage, DeliveryGuarantee, guaranteed, ephemeral, resolve_guarantee,
}

-- An int32; the five declared levels are 0 to 4.
abbrev pub OverloadLevel : Type 0
OverloadLevel = ℤ

abbrev pub level_normal : OverloadLevel
level_normal = pos 0

abbrev pub level_delay_standard : OverloadLevel
level_delay_standard = pos 1

abbrev pub level_delay_broadcast : OverloadLevel
level_delay_broadcast = pos 2

abbrev pub level_critical_only : OverloadLevel
level_critical_only = pos 3

abbrev pub level_read_only : OverloadLevel
level_read_only = pos 4

pub data AdmitVerdict : Type 0 where
  verdict_admit verdict_delay verdict_offline : AdmitVerdict

pub record AdmissionGate : Type 0 where
  pub pending : Option ℤ
  pub level : OverloadLevel
  pub written : ℤ
  pub delivered : ℤ
  pub high_watermark : ℤ
  pub low_watermark : ℤ
  pub cooldown_levels : ℤ
  pub eval_interval : ℤ
  pub low_streak : ℤ
  pub last_level_change_at : ℤ
  pub started : Bool
  pub stopped : Bool

abbrev pub default_admission_high_watermark : ℤ
default_admission_high_watermark = pos 8000

abbrev pub default_admission_low_watermark : ℤ
default_admission_low_watermark = pos 2000

-- "500ms", in nanoseconds.
abbrev pub default_admission_eval_interval : ℤ
default_admission_eval_interval = pos 500000000

abbrev pub default_admission_cooldown_levels : ℤ
default_admission_cooldown_levels = pos 3

abbrev or_default : ℤ → ℤ → ℤ
or_default n d = if leb_ℤ n (pos 0) then d else n

-- The low watermark that keeps below a positive high one; Go's `/ 4` of a positive number.
unfoldable pub below_high : ℤ → ℤ → ℤ
below_high high low = if leb_ℤ high low then pos (pos_part high / 4) else low

unfoldable pub new_admission_gate : ℤ → ℤ → ℤ → AdmissionGate
unfolding below_high
new_admission_gate high low interval =
    let high' = or_default high default_admission_high_watermark in
    let low' = or_default low default_admission_low_watermark in
    record {
      pending = none;
      level = level_normal;
      written = pos 0;
      delivered = pos 0;
      high_watermark = high';
      low_watermark = below_high high' low';
      cooldown_levels = default_admission_cooldown_levels;
      eval_interval = or_default interval default_admission_eval_interval;
      low_streak = pos 0;
      last_level_change_at = pos 0;
      started = false;
      stopped = false;
    }

-- The second part says whether the evaluation loop is spawned.
unfoldable pub start : AdmissionGate → AdmissionGate × Bool
start g =
    if g.stopped
    then (g, false)
    else if g.started
    then (g, false)
    else (record g { started = true }, true)

unfoldable pub stop : AdmissionGate → AdmissionGate
stop g = record g { stopped = true }

unfoldable pub backlog : AdmissionGate → ℤ
backlog g = elim g.pending [ none ↦ pos 0 | some c ↦ if ltb_ℤ c (pos 0) then pos 0 else c ]

abbrev set_level : AdmissionGate → OverloadLevel → ℤ → AdmissionGate
set_level g l now = record g { level = l; last_level_change_at = now }

-- One tick of evaluateLoop, by the branches of its comparison with the watermarks.
unfoldable pub over_high : AdmissionGate → ℤ → AdmissionGate
over_high g now =
    let g' = if ltb_ℤ g.level level_read_only then set_level g (g.level +ℤ pos 1) now else g in
    record g' { low_streak = pos 0 }

unfoldable pub under_low : AdmissionGate → ℤ → AdmissionGate
under_low g now =
    let streak = int32 (g.low_streak +ℤ pos 1) in
    if leb_ℤ (int32 g.cooldown_levels) streak && ltb_ℤ level_normal g.level
    then record (set_level g (g.level -ℤ pos 1) now) { low_streak = pos 0 }
    else record g { low_streak = streak }

unfoldable pub evaluate : AdmissionGate → ℤ → AdmissionGate
unfolding backlog
evaluate g now =
    if ltb_ℤ g.high_watermark (backlog g)
    then over_high g now
    else if ltb_ℤ (backlog g) g.low_watermark
    then under_low g now
    else record g { low_streak = pos 0 }

is_guaranteed : DeliveryGuarantee → Bool
is_guaranteed guaranteed = true
is_guaranteed _ = false

is_ephemeral : DeliveryGuarantee → Bool
is_ephemeral ephemeral = true
is_ephemeral _ = false

-- The `switch` on the level, for a message that is not guaranteed.
unfoldable pub admit_at : OverloadLevel → DeliveryGuarantee → Bool → AdmitVerdict
unfolding is_ephemeral
admit_at level g is_broadcast =
    if eqb_ℤ level level_normal
    then verdict_admit
    else if eqb_ℤ level level_delay_standard
    then (if is_ephemeral g
        then verdict_admit
        else if is_broadcast
        then verdict_delay
        else verdict_delay)
    else if eqb_ℤ level level_delay_broadcast
    then (if is_ephemeral g then verdict_admit else verdict_offline)
    else if eqb_ℤ level level_critical_only
    then (if is_ephemeral g then verdict_admit else verdict_offline)
    else if eqb_ℤ level level_read_only
    then (if is_ephemeral g then verdict_admit else verdict_offline)
    else verdict_admit

unfoldable pub admit : AdmissionGate → HubMessage → Bool → AdmitVerdict
unfolding admit_at is_guaranteed
admit gate msg is_broadcast =
    let g = resolve_guarantee msg in
    if is_guaranteed g then verdict_admit else admit_at gate.level g is_broadcast

unfoldable pub on_delivered : AdmissionGate → AdmissionGate
unfolding ◌+ℤ◌
on_delivered g = record g { delivered = int64 (g.delivered +ℤ pos 1) }

unfoldable pub on_write_batch : ℤ → AdmissionGate → AdmissionGate
unfolding ◌+ℤ◌
on_write_batch n g = record g { written = int64 (g.written +ℤ n) }

unfoldable pub set_pending_counter : Option ℤ → AdmissionGate → AdmissionGate
set_pending_counter counter g = record g { pending = counter }

unfoldable pub force_level : OverloadLevel → ℤ → AdmissionGate → AdmissionGate
force_level level now g = set_level g level now

pub record AdmissionStats : Type 0 where
  pub level : OverloadLevel
  pub backlog : ℤ
  pub written : ℤ
  pub delivered : ℤ

unfoldable pub stats : AdmissionGate → AdmissionStats
unfolding backlog
stats g = record {
  level = g.level;
  backlog = backlog g;
  written = g.written;
  delivered = g.delivered;
}
