-- ===== src/Notification/Validity.antt =====
-- What `Validate` accepts, and what `SetCategory` leaves.
use edu_learn_notification_s.Prelude.{true, String, ◌≡◌, ◌≢◌, ◌⊎◌, ◌↔◌, arith, eq_iff}
use edu_learn_notification_s.Errors.{ok}
use edu_learn_notification_s.Notification.{
  Notification, NotificationType, blank, map_to_category, is_valid_type, set_category, validate,
  email_notification, inapp_notification, sms_notification, push_notification, message_category,
}

-- The types that a notification may have.
abbrev pub IsKnownType : NotificationType → Type 0
IsKnownType t =
    (t ≡ email_notification)
    ⊎ (t ≡ sms_notification)
    ⊎ (t ≡ push_notification)
    ⊎ (t ≡ inapp_notification)

pub is_valid_type_iff : (t : NotificationType) → (is_valid_type t ≡ true) ↔ IsKnownType t
unfolding is_valid_type
is_valid_type_iff t =
    ground (arith, eq_iff t "email", eq_iff t "sms", eq_iff t "push", eq_iff t "inapp")

-- `Validate` accepts a notification exactly when it has a user, a recipient, one of the four known
-- types, and a subject or a body.
pub validate_iff :
    (n : Notification)
    → (validate n ≡ ok tt) ↔ (
        (n.user_id ≢ "")
        × (n.recipient ≢ "")
        × IsKnownType n.type
        × ((n.subject ≢ "") ⊎ (n.body ≢ "")))
unfolding validate
validate_iff n = ground (
  arith,
  eq_iff n.user_id "",
  eq_iff n.recipient "",
  eq_iff n.subject "",
  eq_iff n.body "",
  is_valid_type_iff n.type,
)

-- The categories that the program names.
abbrev pub IsKnownCategory : String → Type 0
IsKnownCategory c =
    (c ≡ "course") ⊎ (c ≡ "assignment") ⊎ (c ≡ "achievement") ⊎ (c ≡ "message") ⊎ (c ≡ "system")

-- `SetCategory` leaves one of the five known categories, keeps a text that already is one of them, and
-- files every other text under "message".
pub set_category-IsKnownCategory :
    (c : String) (n : Notification)
    → IsKnownCategory (set_category c n).category
      × (IsKnownCategory c → (set_category c n).category ≡ c)
      × (¬ IsKnownCategory c → (set_category c n).category ≡ message_category)
unfolding set_category
set_category-IsKnownCategory c n = ground (
  arith,
  eq_iff c "course",
  eq_iff c "assignment",
  eq_iff c "achievement",
  eq_iff c "message",
  eq_iff c "system",
)

pub map_to_category_idempotent :
    (category : String) → map_to_category (map_to_category category) ≡ map_to_category category
unfolding set_category
map_to_category_idempotent category =
    (set_category-IsKnownCategory (map_to_category category) blank).1
      (set_category-IsKnownCategory category blank).0
