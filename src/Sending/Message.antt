-- ===== src/Sending/Message.antt =====
-- internal/infrastructure/notification/inapp_strategy.go: the in-app message that the strategy makes of a
-- notification, and the strategy with it. The metadata is left out in the source.
use edu_learn_notification_s.Prelude.{ℕ, String, [], any, if◌then◌else◌}
use edu_learn_notification_s.Effect.{Exec}
use edu_learn_notification_s.Notification.{Notification, InAppWsMessage}
use edu_learn_notification_s.Ports.{NotificationRepository, NotificationSender, WsHubAdaptor}
use edu_learn_notification_s.Handlers.Display.{Clock, mentions, high_priority_keywords}
use edu_learn_notification_s.Sending.{in_app_strategy}

-- func (s *InAppStrategy) determinePriority, which does not read the priority of the notification
unfoldable determine_priority : (String → String) → Notification → String
determine_priority lower n =
    if any (mentions lower n) high_priority_keywords then "high" else "normal"

-- func (s *InAppStrategy) buildWebSocketMessage
unfoldable build_ws_message : Clock → Notification → InAppWsMessage
unfolding determine_priority
build_ws_message clock n = record {
  type = "notification";
  id = n.id;
  user_id = n.user_id;
  subject = n.subject;
  body = n.body;
  recipient = n.recipient;
  is_read = n.is_read;
  created_at = clock.rfc3339 n.created_at;
  priority = determine_priority clock.to_lower n;
  action_url = "";
  notification_type = n.type;
  metadata = [];
}

-- func NewInAppStrategy
unfoldable new_in_app_strategy :
    {W : Type 0} (clock : Clock) (repo : NotificationRepository W) (hub : WsHubAdaptor W) (now : ℕ)
    (new_id : Exec W String)
    → NotificationSender W
new_in_app_strategy clock repo hub now new_id =
    in_app_strategy now new_id repo hub (build_ws_message clock)
