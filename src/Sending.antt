-- ===== src/Sending.antt =====
-- internal/application/services/notification_service.go, and internal/infrastructure/notification: the
-- notification service, the dispatch of a notification to the strategies of its type, and the
-- strategies. A strategy writes to the notification that it is given, so the object is part of the
-- state. `new_id` makes an identifier (google/uuid), `to_message` the in-app message of a
-- notification, in Message.
-- The other calls of the service stand in Service.
pub mod Twice
pub mod Message
pub mod Service
use edu_learn_notification_s.Prelude.{
  ℕ, String, List, [], ◌∷◌, Option, none, some, eqb, ◌==◌, if◌then◌else◌,
}
use edu_learn_notification_s.Errors.{
  Err, Result, ok, err, new, wrap, with_context, domain, database,
}
use edu_learn_notification_s.Effect.{Exec, pure, fail, ◌>>=◌, ◌>>◌}
use edu_learn_notification_s.Notification.{
  Notification, NotificationType, InAppWsMessage, blank, email_notification, inapp_notification,
  validate,
}
use edu_learn_notification_s.Ports.{
  NotificationRepository, NotificationSender, EmailSender, WsHubAdaptor,
}

-- The strategies of each type, a map in the source.
abbrev pub Strategies : Type 0 → Type 0
Strategies W = List (NotificationType × List (NotificationSender W))

-- The fields that a strategy fills in: a missing type, a missing time, the time of the update.
abbrev pub filled : NotificationType → ℕ → Notification → Notification
filled default now n = record n {
  type = if n.type == "" then default else n.type;
  created_at = if eqb n.created_at 0 then now else n.created_at;
  updated_at = now;
}

module _ {W : Type 0} where
  strategies_of : NotificationType → Strategies W → List (NotificationSender W)
  strategies_of t [] = []
  strategies_of t ((u, ss) ∷ rest) = if u == t then ss else strategies_of t rest

  -- The loop of Send: the first error ends it.
  send_each : List (NotificationSender W) → Exec (Notification × W) (Unit {0})
  send_each [] = pure tt
  send_each (s ∷ ss) = do s.send; send_each ss

  require_strategies : List (NotificationSender W) → Exec (Notification × W) (Unit {0})
  unfolding send_each
  require_strategies [] = fail (new "no strategy for notification type")
  require_strategies (s ∷ ss) = send_each (s ∷ ss)

  -- func (s *NotificationSender) Send
  pub dispatch : Strategies W → Exec (Notification × W) (Unit {0})
  unfolding strategies_of require_strategies
  dispatch strategies (n, w) = require_strategies (strategies_of n.type strategies) (n, w)

  -- func (s *PushStrategy) Send
  abbrev push_strategy : NotificationSender W
  push_strategy = record { send = fail (new "push strategy not implemented yet") }

  module _ (now : ℕ) (new_id : Exec W String) where
    -- `if n.ID == "" { n.ID = … }`
    identified : Exec (Notification × W) (Unit {0})
    identified (n, w) =
        if n.id == ""
        then (elim (new_id w).0 [
          | ok id ↦ (ok tt, (record n { id = id }, (new_id w).1))
          | err e ↦ (err e, (n, (new_id w).1))
        ])
        else (ok tt, (n, w))

    fill : NotificationType → Exec (Notification × W) (Unit {0})
    fill default (n, w) = (ok tt, (filled default now n, w))

    checked : Exec (Notification × W) (Unit {0})
    checked (n, w) = (with_context "invalid notification" (validate n), (n, w))

    saved :
        (repo : NotificationRepository W)
        → Result Notification
        → Notification
        → W
        → Result (Unit {0}) × (Notification × W)
    saved repo (ok m) n w = (ok tt, (m, w))
    saved repo (err e) n w = (err (wrap "failed to save notification" e), (n, w))

    save : NotificationRepository W → Exec (Notification × W) (Unit {0})
    unfolding saved
    save repo (n, w) = let (r, w') = repo.save_notification now n w in saved repo r n w'

    notify :
        (hub : WsHubAdaptor W) (to_message : Notification → InAppWsMessage)
        → Exec (Notification × W) (Unit {0})
    notify hub to_message (n, w) = (ok tt, (n, (hub.notify_in_app_message (to_message n) w).1))

    -- func (s *InAppStrategy) Send
    pub in_app_strategy :
        (repo : NotificationRepository W) (hub : WsHubAdaptor W)
        (to_message : Notification → InAppWsMessage)
        → NotificationSender W
    unfolding identified fill checked save notify
    in_app_strategy repo hub to_message = record {
      send = do
        identified
        fill inapp_notification
        checked
        save repo
        notify hub to_message;
    }

    mail : EmailSender W → Exec (Notification × W) (Unit {0})
    mail sender (n, w) =
        let (r, w') = sender.send n w in (with_context "failed to send email" r, (n, w'))

    -- func (s *EmailStrategy) Send
    pub email_strategy : EmailSender W → NotificationSender W
    unfolding identified fill checked mail
    email_strategy sender = record {
      send = do
        identified
        fill email_notification
        checked
        mail sender;
    }

    -- What CreateAndQueue does after the first save: the notification is returned with the error too.
    queue :
        (sender : Exec (Notification × W) (Unit {0}))
        → Result Notification
        → W
        → (Option Notification × Result (Unit {0})) × W
    queue sender (err e) w = ((none, err (domain database)), w)
    queue sender (ok n) w = let (r, (n', w')) = sender (n, w) in ((some n', r), w')

    stored :
        (repo : NotificationRepository W) (sender : Exec (Notification × W) (Unit {0}))
        → Notification
        → W
        → (Option Notification × Result (Unit {0})) × W
    unfolding queue
    stored repo sender n w = let (r, w') = repo.save_notification now n w in queue sender r w'

    -- func (s *NotificationService) CreateAndQueue; `id` is the identifier that it draws.
    pub create_and_queue :
        (repo : NotificationRepository W) (sender : Exec (Notification × W) (Unit {0}))
        → String
        → String
        → String
        → String
        → String
        → NotificationType
        → W
        → (Option Notification × Result (Unit {0})) × W
    unfolding stored
    create_and_queue repo sender id user_id recipient subject body type w =
        stored repo sender
          (record blank {
            id = id;
            user_id = user_id;
            type = type;
            subject = subject;
            body = body;
            recipient = recipient;
            created_at = now;
          })
          w
