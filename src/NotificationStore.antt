-- ===== src/NotificationStore.antt =====
-- internal/infrastructure/database/gorm: the repository of the notifications, a table behind three
-- caches. gorm and the database are the parameter `db`; of the three caches each holds one type of
-- value of the one `ports.Cache`. The counts of rows are numbers; log calls are left out.
pub mod Laws
pub mod Created
pub mod Reads
pub mod Writes
pub mod Stale
pub mod Processed
use Prim.Native.String.{◌++◌}
use edu_learn_notification_s.Prelude.{
  ℕ, ◌-◌, ◌*◌, Bool, true, false, ◌&&◌, String, List, Option, none, some, map, eqb, ltb, ◌==◌,
  if◌then◌else◌,
}
use edu_learn_notification_s.Errors.{Result, ok, err, new, domain, notification_not_found}
use edu_learn_notification_s.Effect.{Exec, pure, fail, lift, context, attempt, ignore, ◌>>=◌, ◌>>◌}
use edu_learn_notification_s.Otp.{minute}
use edu_learn_notification_s.Notification.{
  Notification, NotificationType, NotificationCategory, validate,
}
use edu_learn_notification_s.Ports.{Cache, NotificationFilter, Page, NotificationRepository}

-- models/notification_model.go
pub record NotificationModel : Type 0 where
  pub id : String
  pub user_id : String
  pub type : NotificationType
  pub subject : String
  pub body : String
  pub recipient : String
  pub is_read : Bool
  pub created_at : ℕ
  pub updated_at : ℕ
  pub priority : String
  pub action_url : String
  pub category : NotificationCategory
  pub metadata : List (String × String)

-- func (r *NotificationRepository) mapToEntityModel
abbrev pub to_model : Notification → NotificationModel
to_model n = record {
  id = n.id;
  user_id = n.user_id;
  type = n.type;
  subject = n.subject;
  body = n.body;
  recipient = n.recipient;
  is_read = n.is_read;
  created_at = n.created_at;
  updated_at = n.updated_at;
  priority = n.priority;
  action_url = n.action_url;
  category = n.category;
  metadata = n.metadata;
}

-- func (r *NotificationRepository) mapToDomainEntity
abbrev pub to_entity : NotificationModel → Notification
to_entity m = record {
  id = m.id;
  user_id = m.user_id;
  type = m.type;
  subject = m.subject;
  body = m.body;
  recipient = m.recipient;
  is_read = m.is_read;
  created_at = m.created_at;
  updated_at = m.updated_at;
  priority = m.priority;
  action_url = m.action_url;
  category = m.category;
  metadata = m.metadata;
}

-- The conditions of a query: each that is given must hold of a row.
pub record Query : Type 0 where
  pub id : Option String
  pub user_id : String
  pub category : Option NotificationCategory
  pub is_read : Option Bool

-- What the repository calls of gorm: `Create`, `First` (`none` for `ErrRecordNotFound`), `Count`,
-- `Find` of the newest rows after an offset, the update of `is_read` and `updated_at`, `Delete`, and
-- `Create` and `Count` of the table of processed events.
pub record Database (W : Type 0) : Type 0 where
  pub create : NotificationModel → Exec W (Unit {0})
  pub first : Query → Exec W (Option NotificationModel)
  pub count : Query → Exec W ℕ
  pub find : Query → ℕ → ℕ → Exec W (List NotificationModel)
  pub update_read : Query → ℕ → Exec W ℕ
  pub delete : Query → Exec W ℕ
  pub create_processed : String → ℕ → Exec W (Unit {0})
  pub count_processed : String → Exec W ℕ

abbrev pub one : String → String → Query
one id user = record { id = some id; user_id = user; category = none; is_read = none }

abbrev pub notification_key : String → String
notification_key id = "notification:" ++ id

abbrev pub user_key : String → String
user_key user = "user_notifications:" ++ user

abbrev pub page_key : String → String
page_key user = ("user_notifications:" ++ user) ++ ":page1"

abbrev pub processed_key : String → String
processed_key id = "processed:" ++ id

-- The times that SaveNotification sets.
abbrev pub stamped : ℕ → Notification → Notification
stamped now n = record n {
  created_at = if eqb n.created_at 0 then now else n.created_at;
  updated_at = now;
}

is_unfiltered : Option NotificationCategory → Option Bool → Bool
is_unfiltered none none = true
is_unfiltered category is_read = false

-- The page and the page size that GetNotifications works with.
abbrev at_least : ℕ → ℕ → ℕ
at_least default n = if ltb n 1 then default else n

module _ {W : Type 0} (db : Database W) (notes : Cache W Notification) (pages : Cache W Page)
    (flags : Cache W Bool) where
  both : Result (Unit {0}) → Result (Unit {0}) → Exec W (Unit {0})
  both (ok a) (ok b) = pure tt
  both a b = fail (new "failed to delete cache key")

  -- func (r *NotificationRepository) invalidateUserNotificationCaches
  pub invalidate_user : String → Exec W (Unit {0})
  unfolding both
  invalidate_user user = do
    a ← attempt (pages.delete (user_key user))
    b ← attempt (pages.delete (page_key user))
    both a b

  -- func (r *NotificationRepository) SaveNotification
  pub save_notification : ℕ → Notification → Exec W Notification
  save_notification now n = do
    context "validation failed" (lift (validate n))
    context "failed to save notification" (db.create (to_model (stamped now n)))
    ignore (invalidate_user n.user_id)
    pure (stamped now n)

  keep_found : ℕ → String → Option NotificationModel → Exec W Notification
  keep_found now id none = fail (domain notification_not_found)
  keep_found now id (some m) = do
    ignore (notes.set now (notification_key id) (to_entity m) (5 * minute))
    pure (to_entity m)

  from_table : ℕ → String → String → Exec W Notification
  unfolding keep_found
  from_table now id user = do
    found ← context "failed to get notification" (db.first (one id user))
    keep_found now id found

  or_table : ℕ → String → String → Result Notification → Exec W Notification
  or_table now id user (ok n) = if n.user_id == user then pure n else from_table now id user
  or_table now id user (err e) = from_table now id user

  -- func (r *NotificationRepository) GetNotification
  pub get_notification : ℕ → String → String → Exec W Notification
  unfolding or_table from_table
  get_notification now id user = do
    cached ← attempt (notes.get now (notification_key id))
    or_table now id user cached

  -- func (r *NotificationRepository) MarkAsRead
  unfoldable pub mark_as_read : ℕ → String → String → Exec W (Unit {0})
  mark_as_read now id user = do
    count ← context "failed to mark as read" (db.update_read (one id user) now)
    if eqb count 0
        then fail (domain notification_not_found)
        else (do ignore (notes.delete (notification_key id)); ignore (invalidate_user user))

  -- func (r *NotificationRepository) MarkAllAsRead
  pub mark_all_as_read : ℕ → String → Exec W (Unit {0})
  mark_all_as_read now user = do
    context "failed to mark all as read" (
        db.update_read (record { id = none; user_id = user; category = none; is_read = some false })
          now)
    ignore (invalidate_user user)

  -- func (r *NotificationRepository) DeleteNotification
  unfoldable pub delete_notification : String → String → Exec W (Unit {0})
  delete_notification id user = do
    count ← context "failed to delete notification" (db.delete (one id user))
    if eqb count 0
        then fail (domain notification_not_found)
        else (do ignore (notes.delete (notification_key id)); ignore (invalidate_user user))

  -- func (r *NotificationRepository) ClearNotifications
  pub clear_notifications : String → Exec W (Unit {0})
  clear_notifications user = do
    context "failed to clear notifications"
        (db.delete (record { id = none; user_id = user; category = none; is_read = none }))
    ignore (invalidate_user user)

  -- The page of the table, put into the cache if it is an unfiltered first page.
  page_from_table : ℕ → NotificationFilter → Bool → Exec W Page
  page_from_table now f keep = do
    let query : Query = record {
      id = none;
      user_id = f.user_id;
      category = f.category;
      is_read = f.is_read;
    }
    total ← context "failed to count notifications" (db.count query)
    rows ←
        context "failed to fetch notifications"
          (db.find query f.page_size ((f.page - 1) * f.page_size))
    let page : Page = record { notifications = map to_entity rows; total = total }
    if keep
        then (do ignore (pages.set now (page_key f.user_id) page (2 * minute)); pure page)
        else pure page

  or_page : ℕ → NotificationFilter → Result Page → Exec W Page
  or_page now f (ok page) = pure page
  or_page now f (err e) = page_from_table now f true

  list_page : ℕ → NotificationFilter → Exec W Page
  unfolding or_page page_from_table is_unfiltered
  list_page now f =
      if eqb f.page 1 && is_unfiltered f.category f.is_read
      then (do cached ← attempt (pages.get now (page_key f.user_id)); or_page now f cached)
      else page_from_table now f false

  -- func (r *NotificationRepository) GetNotifications
  pub get_notifications : ℕ → NotificationFilter → Exec W Page
  unfolding list_page
  get_notifications now f =
      list_page now (record f { page = at_least 1 f.page; page_size = at_least 10 f.page_size })

  flag_counted : ℕ → String → ℕ → Exec W Bool
  flag_counted now id count =
      if ltb 0 count
      then (do ignore (flags.set now (processed_key id) true (60 * minute)); pure true)
      else pure false

  or_count : ℕ → String → Result Bool → Exec W Bool
  unfolding flag_counted
  or_count now id (ok true) = pure true
  or_count now id r = do
    count ← context "failed to check if processed" (db.count_processed id)
    flag_counted now id count

  -- func (r *NotificationRepository) CheckIfProcessed
  pub check_if_processed : ℕ → String → Exec W Bool
  unfolding or_count
  check_if_processed now id = do
    found ← attempt (flags.exists now (processed_key id))
    or_count now id found

  -- func (r *NotificationRepository) MarkAsProcessed
  pub mark_as_processed : ℕ → String → Exec W (Unit {0})
  mark_as_processed now id = do
    context "failed to mark as processed" (db.create_processed id now)
    ignore (flags.set now (processed_key id) true (60 * minute))

  unfoldable pub notification_repository : NotificationRepository W
  unfolding save_notification get_notification get_notifications mark_as_read delete_notification
      clear_notifications mark_all_as_read check_if_processed mark_as_processed
  notification_repository = record {
    save_notification = save_notification;
    get_notification = get_notification;
    get_notifications = get_notifications;
    mark_as_read = mark_as_read;
    delete_notification = delete_notification;
    clear_notifications = clear_notifications;
    mark_all_as_read = mark_all_as_read;
    check_if_processed = check_if_processed;
    mark_as_processed = mark_as_processed;
  }
