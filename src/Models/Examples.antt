-- ===== src/Models/Examples.antt =====
-- The theorems on models/ at concrete inputs.
mod Clients
use go_wsc.Base.{◌≡◌, refl, nat_eq, string_eq, pair_eq}
use go_wsc.Base.Int.{pos, ◌+ℤ◌, ◌*ℤ◌, ◌≤ℤ◌}
use go_wsc.Models.HubMessage.{guaranteed, resolve_guarantee, guarantee_for_type}
use go_wsc.Models.HubMessage.Resolve.{
  is_set, resolve_guarantee-is_set, resolve_guarantee-typed, resolve_guarantee-derived,
}
use go_wsc.Models.Classification.{get_final_priority, category_bonus}
use go_wsc.Models.Classification.Score.{get_final_priority-le, get_final_priority-eq_sum}
use go_wsc.Models.MessageType.{should_skip_database_record, is_business_type}
use go_wsc.Models.MessageType.Content
use go_wsc.Models.MessageType.Signals
use go_wsc.Models.MessageType.Recorded.{is_business_type-recorded}
use go_wsc.Models.MessagePriority.{PriorityStats, priority_stats_from}
use go_wsc.Models.MessagePriority.Counts.{parts, priority_stats_from-parts}
use go_wsc.Models.Enums.VipLevel
use go_wsc.Models.Enums.UrgencyLevel
use go_wsc.Models.Enums.UserStatus
use go_wsc.Models.Enums.ClientType
use go_wsc.Models.Enums.RoundTrips.{
  vip_level_from_level-get_level, user_status_from_int-to_int, map_device_type-map_client_type,
}
use go_wsc.Models.Samples.{chat, payment, classified, urgent_class}

vip_level_from_level-get_level_example :
    VipLevel.vip_level_from_level (VipLevel.get_level VipLevel.v3) ≡ VipLevel.v3
vip_level_from_level-get_level_example = vip_level_from_level-get_level VipLevel.v3 refl
