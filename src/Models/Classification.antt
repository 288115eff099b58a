-- ===== src/Models/Classification.antt =====
-- models/classification.go: the combined classification of a message and its score. `int` is 64 bits
-- wide, and its products and sums wrap around. The timestamp and the user do not take part.
pub mod Score
use go_wsc.Base.{Bool, ◌||◌, if◌then◌else◌, str_eq}
use go_wsc.Base.Int.{ℤ, pos, ◌+ℤ◌, ◌*ℤ◌, int64, ltb_ℤ, leb_ℤ, eqb_ℤ}
use go_wsc.Models.MessageType.{MessageType}
use go_wsc.Models.MessagePriority.{MessagePriority, critical}
use go_wsc.Models.Enums.VipLevel
use go_wsc.Models.Enums.VipLevel.{VipLevel}
use go_wsc.Models.Enums.UrgencyLevel
use go_wsc.Models.Enums.UrgencyLevel.{UrgencyLevel}
use go_wsc.Models.Enums.BusinessCategory
use go_wsc.Models.Enums.BusinessCategory.{BusinessCategory}

pub record MessageClassification : Type 0 where
  pub message_type : MessageType
  pub priority : MessagePriority
  pub vip_level : VipLevel
  pub urgency_level : UrgencyLevel
  pub business_category : BusinessCategory

-- MessagePriority.GetWeight.
unfoldable pub get_weight : MessagePriority → ℤ
get_weight p = p

-- The `switch` of GetFinalPriority.
unfoldable pub category_bonus : BusinessCategory → ℤ
category_bonus c =
    if str_eq c BusinessCategory.security
    then pos 15
    else if str_eq c BusinessCategory.finance
    then pos 10
    else if str_eq c BusinessCategory.customer
    then pos 8
    else if str_eq c BusinessCategory.technical
    then pos 5
    else if str_eq c BusinessCategory.sales
    then pos 3
    else pos 0

-- The sum of the parts, before the cap.
unfoldable pub total_score : MessageClassification → ℤ
unfolding get_weight
total_score mc =
    let base_priority = int64 (get_weight mc.priority *ℤ pos 5) in
    let vip_bonus = VipLevel.get_level mc.vip_level *ℤ pos 5 in
    let urgency_bonus = UrgencyLevel.get_level mc.urgency_level *ℤ pos 10 in
    int64 (base_priority +ℤ vip_bonus +ℤ urgency_bonus +ℤ category_bonus mc.business_category)

abbrev pub capped : ℤ → ℤ
capped t = if ltb_ℤ (pos 100) t then pos 100 else t

unfoldable pub get_final_priority : MessageClassification → ℤ
unfolding total_score
get_final_priority mc = capped (total_score mc)

unfoldable pub is_high_priority_message : MessageClassification → Bool
unfolding get_final_priority
is_high_priority_message mc = leb_ℤ (pos 70) (get_final_priority mc)

unfoldable pub is_critical_message : MessageClassification → Bool
unfolding get_final_priority
is_critical_message mc =
    leb_ℤ (pos 90) (get_final_priority mc)
    || eqb_ℤ mc.priority critical
    || str_eq mc.urgency_level UrgencyLevel.high
    || str_eq mc.business_category BusinessCategory.security
