-- ===== src/Tests/StoreRuns.antt =====
-- The repository of the notifications: the notification "n1" of "ann", in the table and in the cache.
use edu_learn_notification_s.Prelude.{
  ℕ, false, String, ◌≡◌, ◌≢◌, refl, ap, none, some, ◌==◌, if◌then◌else◌, arith, eq_iff,
  append-injective,
}
use edu_learn_notification_s.Errors.{ok}
use edu_learn_notification_s.Notification.{Notification, blank}
use edu_learn_notification_s.NotificationStore.{
  NotificationModel, to_model, notification_key, notification_repository, get_notification,
  mark_as_read, mark_all_as_read, delete_notification, clear_notifications,
}
use edu_learn_notification_s.NotificationStore.Laws.{matches}
use edu_learn_notification_s.NotificationStore.Reads.{Fresh, Reads, get_notification-Reads}
use edu_learn_notification_s.NotificationStore.Stale.{clear_notifications-get_notification}
use edu_learn_notification_s.NotificationStore.Processed.{
  ProcessedLaws, Flagged, notification_repository-ProcessedLaws,
}
use edu_learn_notification_s.Tests.Shelf.{
  Shelf, got, row, peek, db, notes, pages, flags, shelf-TableLaws, notes-CacheLaws, shelf-IsApart,
  processed, flag, shelf-FlagLaws,
}

abbrev pub hello : Notification
hello = record blank {
  id = "n1";
  user_id = "ann";
  subject = "Hi";
  recipient = "ann";
  type = "inapp";
}

abbrev pub shelf : Shelf
shelf = record {
  kept = some (to_model hello);
  cached = λ k. if k == "notification:n1" then some (hello, 100) else none;
  seen = λ id. false;
}

abbrev pub IsFresh : ℕ → Shelf → Type 0
IsFresh = Fresh db notes pages flags row peek shelf-TableLaws notes-CacheLaws shelf-IsApart

pub fresh : IsFresh 7 shelf
fresh n id v le h = ground (
  arith,
  eq_iff (notification_key id) "notification:n1",
  append-injective "notification:" id "n1",
  eq_iff "n1" id,
)

get_notification-Reads_example :
    Reads db notes pages flags row peek shelf-TableLaws notes-CacheLaws shelf-IsApart "n1" "ann"
      shelf
      (get_notification db notes pages flags 7 "n1" "ann" shelf).0
    × IsFresh 7 (get_notification db notes pages flags 7 "n1" "ann" shelf).1
get_notification-Reads_example =
    get_notification-Reads db notes pages flags row peek shelf-TableLaws notes-CacheLaws
      shelf-IsApart 7 "n1" "ann" shelf fresh

marked : (mark_as_read db notes pages flags 7 "n1" "ann" shelf).0 ≡ ok tt
unfolding mark_as_read matches
marked = refl

dropped : (delete_notification db notes pages flags "n1" "ann" shelf).0 ≡ ok tt
unfolding delete_notification matches
dropped = refl

clear_notifications-get_notification_example :
    ((get_notification db notes pages flags 7 "n1" "ann"
        (mark_all_as_read db notes pages flags 7 "ann" shelf).1).0
      ≡ ok hello)
    × ((get_notification db notes pages flags 7 "n1" "ann"
          (clear_notifications db notes pages flags "ann" shelf).1).0
        ≡ ok hello)
    × ((clear_notifications db notes pages flags "ann" shelf).0 ≡ ok tt
        → (j : String) (m : NotificationModel)
        → row j (clear_notifications db notes pages flags "ann" shelf).1 ≡ some m
        → m.user_id ≢ "ann")
clear_notifications-get_notification_example =
    clear_notifications-get_notification db notes pages flags row peek shelf-TableLaws
      notes-CacheLaws shelf-IsApart (λ now key w v h. ap got h) 7 "n1" "ann" shelf hello refl refl

notification_repository-ProcessedLaws_example :
    ProcessedLaws
      (notification_repository db notes pages flags)
      processed
      (Flagged db notes pages flags processed flag shelf-FlagLaws)
notification_repository-ProcessedLaws_example =
    notification_repository-ProcessedLaws db notes pages flags processed flag shelf-FlagLaws
