-- ===== src/Kafka/Broker.antt =====
-- internal/infrastructure/kafka/broker.go and producer.go: the events that the service publishes.
-- sarama's producer is the parameter `produce`, which fails where the context has ended; a message is a
-- text, and `marshal` the JSON of an event. The counters of the adapter are a part of the state.
pub mod Counts
use edu_learn_notification_s.Prelude.{
  ℕ, zero, suc, ◌+◌, ◌*◌, ◌/◌, Bool, not, ◌||◌, String, List, [], ◌∷◌, Option, none, some, length,
  eqb, ltb, ◌==◌, if◌then◌else◌,
}
use edu_learn_notification_s.Errors.{Err, Result, ok, err, new, wrap, with_context}
use edu_learn_notification_s.Effect.{Exec, fail, pure, lift, context, attempt, ◌>>=◌, ◌>>◌}
use edu_learn_notification_s.Otp.{second}
use edu_learn_notification_s.Notification.{
  Notification, NotificationType, email_notification, sms_notification, push_notification,
  inapp_notification, is_valid_type, validate,
}
use edu_learn_notification_s.Events.{Event, OtpVerifiedEventPayload, NotificationEventPayload}

pub record PublishMetrics : Type 0 where
  pub total_published : ℕ
  pub failed_published : ℕ
  pub otp_events : ℕ
  pub notification_events : ℕ

-- The topics that the broker publishes to, event_topics.go.
abbrev topic_otp_verified : String
topic_otp_verified = "auth.otp.verified.v1"

abbrev pub topic_email_channel : String
topic_email_channel = "notification.channel.email.v1"

abbrev pub topic_sms_channel : String
topic_sms_channel = "notification.channel.sms.v1"

abbrev pub topic_push_channel : String
topic_push_channel = "notification.channel.push.v1"

abbrev topic_in_app_channel : String
topic_in_app_channel = "notification.channel.in-app.v1"

-- func (a *MessageBrokerAdapter) notificationTypeToTopic
pub notification_type_to_topic : NotificationType → String
notification_type_to_topic t =
    if t == email_notification
    then topic_email_channel
    else if t == sms_notification
    then topic_sms_channel
    else if t == push_notification
    then topic_push_channel
    else if t == inapp_notification
    then topic_in_app_channel
    else topic_email_channel

-- func (a *MessageBrokerAdapter) validateOTPVerifiedEvent
unfoldable validate_otp_verified : OtpVerifiedEventPayload → Result (Unit {0})
validate_otp_verified p =
    if p.user_id == ""
    then err (new "user_id is required")
    else if p.email == ""
    then err (new "email is required")
    else if p.status == ""
    then err (new "status is required")
    else ok tt

-- func (a *MessageBrokerAdapter) validateNotificationEvent
unfoldable validate_notification_event : NotificationEventPayload → Result (Unit {0})
validate_notification_event p =
    if p.id == ""
    then err (new "notification_id is required")
    else if p.user_id == ""
    then err (new "user_id is required")
    else if p.type == ""
    then err (new "type is required")
    else if not (is_valid_type p.type)
    then err (new "invalid notification type")
    else ok tt

-- What a publication does to the counters.
abbrev count_failed : PublishMetrics → PublishMetrics
count_failed m = record m { failed_published = m.failed_published + 1 }

abbrev pub count_published : PublishMetrics → PublishMetrics
count_published m = record m { total_published = m.total_published + 1 }

abbrev count_otp : PublishMetrics → PublishMetrics
count_otp m = record m { total_published = m.total_published + 1; otp_events = m.otp_events + 1 }

abbrev count_notification : PublishMetrics → PublishMetrics
count_notification m = record m {
  total_published = m.total_published + 1;
  notification_events = m.notification_events + 1;
}

module _ {W : Type 0} (produce : String → Option String → String → Exec W (Unit {0})) where
  counted :
      (PublishMetrics → PublishMetrics)
      → String
      → Result (Unit {0}) × W
      → PublishMetrics
      → Result (Unit {0}) × (PublishMetrics × W)
  counted count text (ok u, w) m = (ok tt, (count m, w))
  counted count text (err e, w) m = (err (wrap text e), (count_failed m, w))

  -- The call of the producer, and the counters after it.
  send :
      (PublishMetrics → PublishMetrics)
      → String
      → String
      → Option String
      → String
      → Exec (PublishMetrics × W) (Unit {0})
  unfolding counted
  send count text topic key message (m, w) = counted count text (produce topic key message w) m

  -- func (a *MessageBrokerAdapter) Publish
  pub publish : String → String → Exec (PublishMetrics × W) (Unit {0})
  unfolding send
  publish topic message =
      if topic == ""
      then fail (new "topic must not be empty")
      else if message == ""
      then fail (new "message must not be empty")
      else send count_published "failed to publish message" topic none message

  -- func (a *MessageBrokerAdapter) PublishOTPVerifiedEvent
  pub publish_otp_verified :
      (marshal : Event OtpVerifiedEventPayload → Result String)
      → ℕ
      → Event OtpVerifiedEventPayload
      → Exec (PublishMetrics × W) (Unit {0})
  unfolding send
  publish_otp_verified marshal now event = do
    context "invalid event" (lift (validate_otp_verified event.payload))
    let time : ℕ = if eqb event.timestamp 0 then now / second else event.timestamp
    data' ← lift (
        with_context "failed to marshal event"
          (marshal (record event { base = record event.base { timestamp = time } })))
    send count_otp "failed to publish event" topic_otp_verified (some event.payload.user_id) data'

  -- func (a *MessageBrokerAdapter) PublishNotificationEvent
  publish_notification_event :
      (marshal : Event NotificationEventPayload → Result String)
      → ℕ
      → Event NotificationEventPayload
      → Exec (PublishMetrics × W) (Unit {0})
  unfolding send
  publish_notification_event marshal now event = do
    context "invalid event" (lift (validate_notification_event event.payload))
    let time : ℕ = if eqb event.payload.timestamp 0 then now else event.payload.timestamp
    data' ← lift (
        with_context "failed to marshal event"
          (marshal (record event { payload = record event.payload { timestamp = time } })))
    send count_notification "failed to publish event"
        (notification_type_to_topic event.payload.type) (some event.payload.user_id) data'

  produce_only : String → String → String → Exec (PublishMetrics × W) (Unit {0})
  produce_only topic key message (m, w) =
      let (r, w') = produce topic (some key) message w in (r, (m, w'))

  -- func (a *MessageBrokerAdapter) PublishNotification
  publish_notification :
      (marshal : Notification → Result String) → Notification → Exec (PublishMetrics × W) (Unit {0})
  unfolding produce_only
  publish_notification marshal n = do
    context "invalid notification" (lift (validate n))
    data' ← lift (with_context "failed to marshal notification" (marshal n))
    produce_only (notification_type_to_topic n.type) n.user_id data'

  failures : Result (Unit {0}) → ℕ
  failures (ok u) = 0
  failures (err e) = 1

  -- The loop of PublishBatch over the map, in the order of that run: how many publications fail.
  pub batch_failures : List (String × String) → PublishMetrics × W → ℕ × (PublishMetrics × W)
  unfolding failures publish
  batch_failures [] s = (0, s)
  batch_failures ((topic, message) ∷ rest) s =
      let (r, s') = publish topic message s in
      let (later, s'') = batch_failures rest s' in (failures r + later, s'')

  batch_result : ℕ → Result (Unit {0})
  batch_result n = if eqb n 0 then ok tt else err (new "batch publish completed with failures")

  -- func (a *MessageBrokerAdapter) PublishBatch
  pub publish_batch : List (String × String) → Exec (PublishMetrics × W) (Unit {0})
  unfolding batch_failures batch_result
  publish_batch messages s = let (n, s') = batch_failures messages s in (batch_result n, s')
