-- ===== src/Sending/Service.antt =====
-- The other calls of notification_service.go: each passes to the repository, its error is logged and
-- returned as it is.
use edu_learn_notification_s.Prelude.{ℕ, Bool, String, Option}
use edu_learn_notification_s.Effect.{Exec}
use edu_learn_notification_s.Notification.{Notification, NotificationCategory}
use edu_learn_notification_s.Ports.{NotificationRepository, NotificationFilter, Page}

pub record NotificationService (W : Type 0) : Type 0 where
  pub get_notification : ℕ → String → String → Exec W Notification
  pub list_notifications :
      ℕ → String → ℕ → ℕ → Option Bool → Option NotificationCategory → Exec W Page
  pub mark_as_read : ℕ → String → String → Exec W (Unit {0})
  pub delete_notification : String → String → Exec W (Unit {0})
  pub clear_notifications : String → Exec W (Unit {0})
  pub mark_all_as_read : ℕ → String → Exec W (Unit {0})

-- The filters that ListNotifications builds.
abbrev pub filters : String → ℕ → ℕ → Option Bool → Option NotificationCategory → NotificationFilter
filters user_id page page_size is_read category = record {
  user_id = user_id;
  category = category;
  is_read = is_read;
  page = page;
  page_size = page_size;
}

-- func NewNotificationService
unfoldable pub notification_service :
    {W : Type 0} → NotificationRepository W → NotificationService W
notification_service repo = record {
  get_notification = λ now id user. repo.get_notification now id user;
  list_notifications = λ now user_id page page_size is_read category.
      repo.get_notifications now (filters user_id page page_size is_read category);
  mark_as_read = λ now id user. repo.mark_as_read now id user;
  delete_notification = λ id user. repo.delete_notification id user;
  clear_notifications = λ user. repo.clear_notifications user;
  mark_all_as_read = λ now user. repo.mark_all_as_read now user;
}
