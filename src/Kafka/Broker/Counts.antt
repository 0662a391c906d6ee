-- ===== src/Kafka/Broker/Counts.antt =====
-- What the counters of the broker count, and which channel an event is sent to.
use edu_learn_notification_s.Prelude.{
  ◌+◌, true, false, sym, ap, ◌∙◌, inl, inr, if◌then◌else◌, String, ◌≡◌, ◌≢◌, ◌↔◌, refl, List, [],
  ◌∷◌, Option, none, length, All, arith, eq_iff, ◌==◌,
}
use edu_learn_notification_s.Errors.{Result, ok, err}
use edu_learn_notification_s.Effect.{Exec}
use edu_learn_notification_s.Notification.{
  NotificationType, is_valid_type, email_notification, sms_notification, push_notification,
  inapp_notification,
}
use edu_learn_notification_s.Notification.Validity.{is_valid_type_iff}
use edu_learn_notification_s.Kafka.Broker.{
  PublishMetrics, count_published, topic_email_channel, topic_sms_channel, topic_push_channel,
  notification_type_to_topic, publish, send, counted, failures, batch_failures, batch_result,
  publish_batch,
}

-- The type that a channel is for.
type_of_channel : String → NotificationType
type_of_channel channel =
    if channel == topic_email_channel
    then email_notification
    else if channel == topic_sms_channel
    then sms_notification
    else if channel == topic_push_channel
    then push_notification
    else inapp_notification

type_of_channel-topic :
    (t : NotificationType)
    → is_valid_type t ≡ true
    → type_of_channel (notification_type_to_topic t) ≡ t
unfolding notification_type_to_topic type_of_channel
type_of_channel-topic t v = elim ((is_valid_type_iff t).0 v) [
  | inl e ↦ rw e refl
  | inr (inl e) ↦ rw e refl
  | inr (inr (inl e)) ↦ rw e refl
  | inr (inr (inr e)) ↦ rw e refl
]

-- The known types of notifications have four channels, one each.
pub notification_type_to_topic_injective :
    (t u : NotificationType)
    → is_valid_type t ≡ true
    → is_valid_type u ≡ true
    → notification_type_to_topic t ≡ notification_type_to_topic u
    → t ≡ u
notification_type_to_topic_injective t u v w e =
    sym (type_of_channel-topic t v) ∙ ap type_of_channel e ∙ type_of_channel-topic u w

nonempty : (text : String) → text ≢ "" → (text == "") ≡ false
nonempty text ne = ground (arith, eq_iff text "")

module _ {W : Type 0} (produce : String → Option String → String → Exec W (Unit {0})) where
  -- Both parts of a message are there.
  abbrev IsWhole : String × String → Type 0
  IsWhole (topic, message) = (topic ≢ "") × (message ≢ "")

  counted-counts :
      (text : String) (r : Result (Unit {0}) × W) (m : PublishMetrics)
      → let s = counted produce count_published text r m in
        (s.1.0.total_published + failures produce s.0 ≡ m.total_published + 1)
        × (s.1.0.failed_published ≡ m.failed_published + failures produce s.0)
  unfolding counted failures
  counted-counts text (ok u, w) m = (omega arith, omega arith)
  counted-counts text (err e, w) m = (omega arith, omega arith)

  publish-send :
      (topic message : String)
      → topic ≢ ""
      → message ≢ ""
      → publish produce topic message
        ≡ send produce count_published "failed to publish message" topic none message
  unfolding publish
  publish-send topic message t n = rw (nonempty topic t, nonempty message n) refl

  batch-counts :
      (messages : List (String × String)) (s : PublishMetrics × W)
      → All IsWhole messages
      → let r = batch_failures produce messages s in
        (r.1.0.total_published + r.0 ≡ s.0.total_published + length messages)
        × (r.1.0.failed_published ≡ s.0.failed_published + r.0)
  unfolding batch_failures send
  batch-counts [] s h = (omega arith, omega arith)
  batch-counts ((topic, message) ∷ rest) (m, w) ((t, n), h) =
      let first = counted-counts "failed to publish message" (produce topic none message w) m in
      let later =
        batch-counts rest
          (counted produce count_published "failed to publish message"
            (produce topic none message w) m).1
          h in
      rw (publish-send topic message t n) (omega (arith, first, later), omega (arith, first, later))

  -- A batch of messages with topic and body: each is published or counted as failed, and counted once;
  -- the batch succeeds exactly when none fails.
  pub publish_batch-PublishMetrics :
      (messages : List (String × String)) (s : PublishMetrics × W)
      → All IsWhole messages
      → let r = publish_batch produce messages s in
        (r.1.0.total_published + r.1.0.failed_published
          ≡ s.0.total_published + s.0.failed_published + length messages)
        × ((r.0 ≡ ok tt) ↔ (r.1.0.failed_published ≡ s.0.failed_published))
  unfolding publish_batch batch_result
  publish_batch-PublishMetrics messages s h =
      let counts = batch-counts messages s h in ground (arith, counts)
