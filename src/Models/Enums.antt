-- ===== src/Models/Enums.antt =====
-- models/enums.go and models/device_type_mapper.go: the string enumerations that carry a number, an
-- order or a translation. A Go string type holds any string, so each function has its default.
pub mod UserType
pub mod UserStatus
pub mod VipLevel
pub mod UrgencyLevel
pub mod BusinessCategory
pub mod Priority
pub mod ClientType
pub mod RoundTrips
