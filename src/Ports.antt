-- ===== src/Ports.antt =====
-- internal/application/ports and internal/domain/repositories: the interfaces by which the parts of
-- the program reach each other. `ports.Cache` holds values of any type; a user of it stores one type,
-- so `Cache W V` is the interface at the values `V`, and `Counters W` is its `Incr`, `Expire`, `Del`.
use edu_learn_notification_s.Prelude.{ℕ, Bool, String, List, Option}
use edu_learn_notification_s.Effect.{Exec}
use edu_learn_notification_s.Notification.{Notification, NotificationCategory, InAppWsMessage}
use edu_learn_notification_s.Otp.{Otp}
use edu_learn_notification_s.Events.{Event, OtpVerifiedEventPayload}

-- ports/cache_service.go. A time is the moment of the call, the last argument of `set` the lifetime.
pub record Cache (W V : Type 0) : Type 0 where
  pub set : ℕ → String → V → ℕ → Exec W (Unit {0})
  pub get : ℕ → String → Exec W V
  pub delete : String → Exec W (Unit {0})
  pub exists : ℕ → String → Exec W Bool

pub record Counters (W : Type 0) : Type 0 where
  pub incr : ℕ → String → Exec W ℕ
  pub expire : ℕ → String → ℕ → Exec W (Unit {0})
  pub del : List String → Exec W ℕ

-- ports/email_sender.go, ports/sender_strategy.go, ports/template_renderer.go, ports/rate_limiter.go
pub record EmailSender (W : Type 0) : Type 0 where
  pub send : Notification → Exec W (Unit {0})

-- A sender may write to the notification that it is given, so the object is part of the state.
pub record NotificationSender (W : Type 0) : Type 0 where
  pub send : Exec (Notification × W) (Unit {0})

pub record TemplateRenderer (W : Type 0) : Type 0 where
  pub render : String → List (String × String) → Exec W String

pub record RateLimiter (W : Type 0) : Type 0 where
  pub allow : ℕ → String → Exec W (Unit {0})

-- ports/ws_hub_adaptor.go, the part that the notification flows call
pub record WsHubAdaptor (W : Type 0) : Type 0 where
  pub notify_in_app_message : InAppWsMessage → Exec W (Unit {0})

-- repositories/otp_repository.go
pub record OtpRepository (W : Type 0) : Type 0 where
  pub save_otp : ℕ → Otp → Exec W (Unit {0})
  pub get_otp : ℕ → String → Exec W Otp
  pub delete_otp : String → Exec W (Unit {0})

-- ports/message_brocker.go, the event that the services publish
pub record EventPublisher (W : Type 0) : Type 0 where
  pub publish_otp_verified : Event OtpVerifiedEventPayload → Exec W (Unit {0})

-- domain/notificaion_filter.go. A page or a page size below 1 is as 0 here.
pub record NotificationFilter : Type 0 where
  pub user_id : String
  pub category : Option NotificationCategory
  pub is_read : Option Bool
  pub page : ℕ
  pub page_size : ℕ

-- What GetNotifications returns, and keeps in the cache for a first page.
pub record Page : Type 0 where
  pub notifications : List Notification
  pub total : ℕ

-- repositories/notification_repository.go. `save_notification` returns the object that the source
-- writes the times to.
pub record NotificationRepository (W : Type 0) : Type 0 where
  pub save_notification : ℕ → Notification → Exec W Notification
  pub get_notification : ℕ → String → String → Exec W Notification
  pub get_notifications : ℕ → NotificationFilter → Exec W Page
  pub mark_as_read : ℕ → String → String → Exec W (Unit {0})
  pub delete_notification : String → String → Exec W (Unit {0})
  pub clear_notifications : String → Exec W (Unit {0})
  pub mark_all_as_read : ℕ → String → Exec W (Unit {0})
  pub check_if_processed : ℕ → String → Exec W Bool
  pub mark_as_processed : ℕ → String → Exec W (Unit {0})
