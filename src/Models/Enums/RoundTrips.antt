-- ===== src/Models/Enums/RoundTrips.antt =====
-- models/enums.go and models/device_type_mapper.go: what the translations of the enumerations to
-- numbers and back keep.
use go_wsc.Base.{
  Bool-cases, inl, inr, ℕ, zero, suc, ◌≤◌, ◌≡◌, refl, true, List, [], ◌∷◌, one_of, one_of-every,
  string_eq, str_eq, if◌then◌else◌, arith,
}
use go_wsc.Base.Int.{pos, ◌≤ℤ◌}
use go_wsc.Models.Enums.VipLevel
use go_wsc.Models.Enums.VipLevel.{VipLevel}
use go_wsc.Models.Enums.UrgencyLevel
use go_wsc.Models.Enums.UserStatus
use go_wsc.Models.Enums.UserStatus.{UserStatus}
use go_wsc.Models.Enums.ClientType
use go_wsc.Models.Enums.ClientType.{ClientType}

-- Every text has a VIP level between 0 and 8.
pub VipLevel-get_level_bounds :
    (v : VipLevel) → (pos 0 ≤ℤ VipLevel.get_level v) × (VipLevel.get_level v ≤ℤ pos 8)
unfolding VipLevel.get_level
VipLevel-get_level_bounds v = ground arith

pub UrgencyLevel-get_level_bounds :
    (u : UrgencyLevel.UrgencyLevel)
    → (pos 0 ≤ℤ UrgencyLevel.get_level u) × (UrgencyLevel.get_level u ≤ℤ pos 2)
unfolding UrgencyLevel.get_level
UrgencyLevel-get_level_bounds u = ground arith

-- From a VIP level to its number and back.
pub vip_level_from_level-get_level :
    (v : VipLevel)
    → one_of v VipLevel.get_all_vip_levels ≡ true
    → VipLevel.vip_level_from_level (VipLevel.get_level v) ≡ v
unfolding VipLevel.vip_level_from_level VipLevel.get_level
vip_level_from_level-get_level v h = (string_eq.agrees_iff _ v).0 (
    one_of-every (λ x. str_eq (VipLevel.vip_level_from_level (VipLevel.get_level x)) x) v
      VipLevel.get_all_vip_levels refl h)

-- From a number to the VIP level and back: the number itself from 0 to 8, and 0 from any other.
pub get_level-vip_level_from_level :
    (n : ℕ) → n ≤ 8 → VipLevel.get_level (VipLevel.vip_level_from_level (pos n)) ≡ pos n
unfolding VipLevel.vip_level_from_level VipLevel.get_level
get_level-vip_level_from_level zero h = refl
get_level-vip_level_from_level (suc zero) h = refl
get_level-vip_level_from_level (suc (suc zero)) h = refl
get_level-vip_level_from_level (suc (suc (suc zero))) h = refl
get_level-vip_level_from_level (suc (suc (suc (suc zero)))) h = refl
get_level-vip_level_from_level (suc (suc (suc (suc (suc zero))))) h = refl
get_level-vip_level_from_level (suc (suc (suc (suc (suc (suc zero)))))) h = refl
get_level-vip_level_from_level (suc (suc (suc (suc (suc (suc (suc zero))))))) h = refl
get_level-vip_level_from_level (suc (suc (suc (suc (suc (suc (suc (suc zero)))))))) h = refl
get_level-vip_level_from_level (suc (suc (suc (suc (suc (suc (suc (suc (suc n))))))))) h =
    absurd (omega arith)

abbrev pub all_statuses : List UserStatus
all_statuses =
    UserStatus.online ∷ UserStatus.busy ∷ UserStatus.away ∷ UserStatus.invisible
    ∷ UserStatus.offline ∷ []

-- A declared status survives the trip through its number; any other text comes back as offline.
pub user_status_from_int-to_int :
    (s : UserStatus)
    → UserStatus.user_status_from_int (UserStatus.to_int s)
      ≡ (if one_of s all_statuses then s else UserStatus.offline)
unfolding UserStatus.user_status_from_int UserStatus.to_int
user_status_from_int-to_int s = ground (
  arith,
  string_eq.agrees_iff s UserStatus.online,
  string_eq.agrees_iff s UserStatus.busy,
  string_eq.agrees_iff s UserStatus.away,
  string_eq.agrees_iff s UserStatus.invisible,
  string_eq.agrees_iff s UserStatus.offline,
)

-- From a client type to a device type and back: a desktop client comes back as a web client, each
-- other declared type as itself, and any other text as a web client.
pub map_device_type-map_client_type :
    (c : ClientType)
    → ClientType.map_device_type_to_client_type (ClientType.map_client_type_to_device_type c)
      ≡ (if one_of c (ClientType.api ∷ ClientType.mobile ∷ []) then c else ClientType.web)
unfolding ClientType.map_device_type_to_client_type ClientType.map_client_type_to_device_type
map_device_type-map_client_type c = elim (Bool-cases (str_eq c ClientType.api)) [
  | inl e ↦ rw ((string_eq.agrees_iff c ClientType.api).0 e)
  | inr n ↦ elim (Bool-cases (str_eq c ClientType.mobile)) [
    | inl e ↦ rw ((string_eq.agrees_iff c ClientType.mobile).0 e)
    | inr m ↦ elim (Bool-cases (str_eq c ClientType.desktop)) [
      | inl e ↦ rw ((string_eq.agrees_iff c ClientType.desktop).0 e)
      | inr d ↦ elim (Bool-cases (str_eq c ClientType.web)) [
        | inl e ↦ rw ((string_eq.agrees_iff c ClientType.web).0 e)
        | inr w ↦ rw n (rw m (rw d (rw w)))
      ]
    ]
  ]
]
