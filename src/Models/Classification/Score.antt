-- ===== src/Models/Classification/Score.antt =====
-- models/classification.go: the range of the score, and the score of the declared priorities.
use go_wsc.Base.{◌+◌, ◌*◌, ◌≡◌, arith}
use go_wsc.Base.Int.{ℤ, pos, ◌≤ℤ◌, ◌+ℤ◌, ◌*ℤ◌, int64, pos_part}
use go_wsc.Models.Enums.VipLevel
use go_wsc.Models.Enums.UrgencyLevel
use go_wsc.Models.Enums.BusinessCategory
use go_wsc.Models.Enums.RoundTrips.{VipLevel-get_level_bounds, UrgencyLevel-get_level_bounds}
use go_wsc.Models.Classification.{
  MessageClassification, category_bonus, total_score, capped, get_final_priority,
}

capped-le : (t : ℤ) → capped t ≤ℤ pos 100
capped-le t = ground arith

-- No classification scores more than 100, whatever its priority, wrap-around included.
pub get_final_priority-le : (mc : MessageClassification) → get_final_priority mc ≤ℤ pos 100
unfolding get_final_priority
get_final_priority-le mc = capped-le (total_score mc)

category_bonus_bounds :
    (c : BusinessCategory.BusinessCategory)
    → (pos 0 ≤ℤ category_bonus c) × (category_bonus c ≤ℤ pos 15)
unfolding category_bonus
category_bonus_bounds c = ground arith

-- The sum for numbers in range, where nothing wraps and the cap does not bind.
score_of :
    (p v u b : ℤ)
    → pos 0 ≤ℤ p
    → p ≤ℤ pos 5
    → pos 0 ≤ℤ v
    → v ≤ℤ pos 8
    → pos 0 ≤ℤ u
    → u ≤ℤ pos 2
    → pos 0 ≤ℤ b
    → b ≤ℤ pos 15
    → capped (int64 (int64 (p *ℤ pos 5) +ℤ v *ℤ pos 5 +ℤ u *ℤ pos 10 +ℤ b))
      ≡ pos (5 * pos_part p + 5 * pos_part v + 10 * pos_part u + pos_part b)
unfolding ◌+ℤ◌ ◌*ℤ◌
score_of p v u b p0 p5 v0 v8 u0 u2 b0 b15 = ground arith

-- For the declared priorities 1 to 5 nothing wraps and the cap of 100 never binds: the score is
-- five times the priority, five times the VIP level, ten times the urgency, and the bonus.
pub get_final_priority-eq_sum :
    (mc : MessageClassification)
    → pos 1 ≤ℤ mc.priority
    → mc.priority ≤ℤ pos 5
    → get_final_priority mc
      ≡ pos (
          5 * pos_part mc.priority
          + 5 * pos_part (VipLevel.get_level mc.vip_level)
          + 10 * pos_part (UrgencyLevel.get_level mc.urgency_level)
          + pos_part (category_bonus mc.business_category))
unfolding get_final_priority
get_final_priority-eq_sum mc lo hi =
    let v = VipLevel-get_level_bounds mc.vip_level in
    let u = UrgencyLevel-get_level_bounds mc.urgency_level in
    let b = category_bonus_bounds mc.business_category in
    score_of _ _ _ _ (omega arith) hi v.0 v.1 u.0 u.1 b.0 b.1
