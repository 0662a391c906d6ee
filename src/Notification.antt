-- ===== src/Notification.antt =====
-- internal/domain/entities/notification.go and message.go. `NotificationType` and
-- `NotificationCategory` are strings in the source, so any text is a value of them. A time is a
-- number of nanoseconds since the zero time of Go, so that `IsZero` is a test for 0. The getters and
-- the plain setters are the fields and the updates of the record.
pub mod Validity
use edu_learn_notification_s.Prelude.{
  ℕ, Bool, true, not, ◌&&◌, ◌||◌, String, List, ◌==◌, if◌then◌else◌,
}
use edu_learn_notification_s.Errors.{
  Result, ok, err, new, domain, invalid_recipient, invalid_notification_type,
}

abbrev pub NotificationType : Type 0
NotificationType = String

abbrev pub NotificationCategory : Type 0
NotificationCategory = String

abbrev pub email_notification : NotificationType
email_notification = "email"

abbrev pub inapp_notification : NotificationType
inapp_notification = "inapp"

abbrev pub sms_notification : NotificationType
sms_notification = "sms"

abbrev pub push_notification : NotificationType
push_notification = "push"

abbrev pub message_category : NotificationCategory
message_category = "message"

-- func MapToCategory(category string) NotificationCategory
pub map_to_category : String → NotificationCategory
map_to_category category =
    if category == "course"
      || category == "assignment"
      || category == "achievement"
      || category == message_category
      || category == "system"
    then category
    else message_category

-- func (nt NotificationType) IsValid() bool
unfoldable pub is_valid_type : NotificationType → Bool
is_valid_type nt =
    nt == email_notification
    || nt == sms_notification
    || nt == push_notification
    || nt == inapp_notification

pub record Notification : Type 0 where
  pub id : String
  pub user_id : String
  pub type : NotificationType
  pub subject : String
  pub body : String
  pub recipient : String
  pub is_read : Bool
  pub created_at : ℕ
  pub updated_at : ℕ
  pub priority : String
  pub action_url : String
  pub category : NotificationCategory
  pub metadata : List (String × String)

-- A composite literal of Go that leaves every field at its zero value.
abbrev pub blank : Notification
blank = record {
  id = "";
  user_id = "";
  type = "";
  subject = "";
  body = "";
  recipient = "";
  is_read = Bool.false;
  created_at = 0;
  updated_at = 0;
  priority = "";
  action_url = "";
  category = "";
  metadata = List.[];
}

-- func (n *Notification) SetCategory(category string)
pub set_category : String → Notification → Notification
unfolding map_to_category
set_category category n = record n { category = map_to_category category }

-- func (n *Notification) Validate() error
unfoldable pub validate : Notification → Result (Unit {0})
validate n =
    if n.user_id == ""
    then err (new "userId is required")
    else if n.recipient == ""
    then err (domain invalid_recipient)
    else if not (is_valid_type n.type)
    then err (domain invalid_notification_type)
    else if n.subject == "" && n.body == ""
    then err (new "either subject or body is required")
    else ok tt

-- func (n *Notification) MarkRead()
unfoldable mark_read : ℕ → Notification → Notification
mark_read now n = record n { is_read = true; updated_at = now }

-- type InAppWSMessage struct
pub record InAppWsMessage : Type 0 where
  pub type : String
  pub id : String
  pub user_id : String
  pub subject : String
  pub body : String
  pub recipient : String
  pub is_read : Bool
  pub created_at : String
  pub priority : String
  pub action_url : String
  pub notification_type : String
  pub metadata : List (String × String)
