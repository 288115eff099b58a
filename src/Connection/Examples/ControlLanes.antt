-- ===== src/Connection/Examples/ControlLanes.antt =====
-- The theorem on connection/control_lane.go at a concrete input.
use go_wsc.Base.{◌≡◌, refl, true, false, some, nat_eq, string_eq, pair_eq}
use go_wsc.Base.Int.{pos}
use go_wsc.Models.HubMessage.{HubMessage}
use go_wsc.Models.MessageType.Signals
use go_wsc.Models.Samples.{chat}
use go_wsc.Overload.Admission.{AdmissionGate, verdict_admit, admit, level_read_only}
use go_wsc.Connection.ControlLane.{is_control_message}
use go_wsc.Connection.ControlLane.Reaches.{admit-control}

abbrev kick : HubMessage
kick = record chat { message_type = Signals.kick_out }

abbrev closed_gate : AdmissionGate
closed_gate = record {
  pending = some (pos 9000);
  level = level_read_only;
  written = pos 0;
  delivered = pos 0;
  high_watermark = pos 8000;
  low_watermark = pos 2000;
  cooldown_levels = pos 3;
  eval_interval = pos 500000000;
  low_streak = pos 0;
  last_level_change_at = pos 0;
  started = true;
  stopped = false;
}

kick_is_control : is_control_message kick.message_type ≡ true
unfolding is_control_message
kick_is_control = refl

admit-control_example : admit closed_gate kick true ≡ verdict_admit
admit-control_example = admit-control closed_gate kick true kick_is_control refl
