-- ===== src/Models/MessageType/Recorded.antt =====
-- models/message_type.go: which messages are kept out of the database.
use go_wsc.Base.{agree, agree→eq, ◌≡◌, refl, true, str_eq, nat_eq, string_eq, one_of-every}
use go_wsc.Models.MessageType.{
  MessageType, is_business_type, is_business_type_cases, should_skip_database_record,
}
use go_wsc.Models.MessageType.Signals

-- A business message is kept out of the database only if it is the status reminder.
pub is_business_type-recorded :
    (t : MessageType)
    → is_business_type t ≡ true
    → should_skip_database_record t ≡ str_eq t Signals.b_status_reminder
unfolding is_business_type should_skip_database_record
is_business_type-recorded t h = agree→eq _ _ (
    one_of-every (λ x. agree (should_skip_database_record x) (str_eq x Signals.b_status_reminder)) t
      is_business_type_cases refl h)
