-- ===== src/NotificationStore/Stale.antt =====
-- What the cache still holds after a write to all notifications of a user.
use edu_learn_notification_s.Prelude.{
  ℕ, Bool, false, String, ◌≡◌, ◌≢◌, sym, ◌∙◌, Option, none, some, arith, eq_iff, inl, inr,
}
use edu_learn_notification_s.Errors.{Result-cases, ok}
use edu_learn_notification_s.Notification.{Notification}
use edu_learn_notification_s.Ports.{Cache, Page}
use edu_learn_notification_s.Redis.Laws.{CacheLaws}
use edu_learn_notification_s.NotificationStore.{
  NotificationModel, Query, Database, notification_key, get_notification, mark_all_as_read,
  clear_notifications, or_table,
}
use edu_learn_notification_s.NotificationStore.Laws.{TableLaws, IsApart, matches, deleted}
use edu_learn_notification_s.NotificationStore.Writes.{invalidate-row, invalidate-peek}

-- The queries of MarkAllAsRead and ClearNotifications.
abbrev unread : String → Query
unread user = record { id = none; user_id = user; category = none; is_read = some false }

abbrev of_user : String → Query
of_user user = record { id = none; user_id = user; category = none; is_read = none }

module _ {W : Type 0} (db : Database W) (notes : Cache W Notification) (pages : Cache W Page)
    (flags : Cache W Bool) (row : String → W → Option NotificationModel)
    (peek : ℕ → String → W → Option Notification) (table : TableLaws db row)
    (cache : CacheLaws notes peek) (apart : IsApart db notes pages row peek) where
  -- The cache answers every Get of a value that it holds.
  abbrev GetsRun : Type 0
  GetsRun =
      (now : ℕ) (key : String) (w : W) (v : Notification)
      → peek now key w ≡ some v
      → (notes.get now key w).0 ≡ ok v

  cached-read :
      (runs : GetsRun) (now : ℕ) (id user : String) (w : W) (v : Notification)
      → peek now (notification_key id) w ≡ some v
      → v.user_id ≡ user
      → (get_notification db notes pages flags now id user w).0 ≡ ok v
  unfolding get_notification or_table
  cached-read runs now id user w v p u =
      rw (runs now (notification_key id) w v p) (ground (arith, eq_iff v.user_id user))

  mark_all-peek :
      (now : ℕ) (user : String) (w : W) (id : String) (n : ℕ)
      → peek n (notification_key id) (mark_all_as_read db notes pages flags now user w).1
        ≡ peek n (notification_key id) w
  unfolding mark_all_as_read
  mark_all-peek now user w id n =
      let q = unread user in
      let kept = apart.update_peek q now w n (notification_key id) in
      elim (Result-cases (db.update_read q now w).0) [
        | inl (count, e) ↦ rw e (
            invalidate-peek db notes pages flags row peek table cache apart user
              (db.update_read q now w).1 n id
            ∙ kept)
        | inr (e, f) ↦ rw f kept
      ]

  clear-peek :
      (user : String) (w : W) (id : String) (n : ℕ)
      → peek n (notification_key id) (clear_notifications db notes pages flags user w).1
        ≡ peek n (notification_key id) w
  unfolding clear_notifications
  clear-peek user w id n =
      let q = of_user user in
      let kept = apart.delete_peek q w n (notification_key id) in
      elim (Result-cases (db.delete q w).0) [
        | inl (count, e) ↦ rw e (
            invalidate-peek db notes pages flags row peek table cache apart user (db.delete q w).1 n
              id
            ∙ kept)
        | inr (e, f) ↦ rw f kept
      ]

  deleted-user :
      (user : String) (o : Option NotificationModel) (m : NotificationModel)
      → deleted (of_user user) o ≡ some m
      → m.user_id ≢ user
  unfolding deleted matches
  deleted-user user none m h u = ground arith
  deleted-user user (some x) m h u = ground (arith, eq_iff user x.user_id)

  cleared-owner :
      (user : String) (w : W)
      → (clear_notifications db notes pages flags user w).0 ≡ ok tt
      → (j : String) (m : NotificationModel)
      → row j (clear_notifications db notes pages flags user w).1 ≡ some m
      → m.user_id ≢ user
  unfolding clear_notifications
  cleared-owner user w h j m r =
      let q = of_user user in
      elim (Result-cases (db.delete q w).0) [
        | inl (count, e) ↦ deleted-user user (row j w) m (
            sym (table.delete_ok q w count j e)
            ∙ sym (
                invalidate-row db notes pages flags row peek table cache apart user
                  (db.delete q w).1 j)
            ∙ rw e at r)
        | inr (e, f) ↦ absurd (ground arith)
      ]

  -- MarkAllAsRead and ClearNotifications leave the notifications that the cache holds: after either, and
  -- with a cache that answers, a read by the user still returns the cached notification as it was, though
  -- after ClearNotifications the table has no row that belongs to the user.
  pub clear_notifications-get_notification :
      (runs : GetsRun) (now : ℕ) (id user : String) (w : W) (v : Notification)
      → peek now (notification_key id) w ≡ some v
      → v.user_id ≡ user
      → ((get_notification db notes pages flags now id user
            (mark_all_as_read db notes pages flags now user w).1).0
          ≡ ok v)
        × ((get_notification db notes pages flags now id user
              (clear_notifications db notes pages flags user w).1).0
            ≡ ok v)
        × ((clear_notifications db notes pages flags user w).0 ≡ ok tt
            → (j : String) (m : NotificationModel)
            → row j (clear_notifications db notes pages flags user w).1 ≡ some m
            → m.user_id ≢ user)
  clear_notifications-get_notification runs now id user w v p u = (
    cached-read runs now id user _ v (mark_all-peek now user w id now ∙ p) u,
    cached-read runs now id user _ v (clear-peek user w id now ∙ p) u,
    λ h j m r. cleared-owner user w h j m r,
  )
