-- ===== src/Grpc/Notifications.antt =====
-- The handlers of the notifications, over the service and the repository behind it.
use edu_learn_notification_s.Prelude.{
  ℕ, Bool, true, false, String, ◌≡◌, ◌≢◌, refl, inl, inr, sym, subst, ◌∙◌, ◌%◌, map, ◌==◌,
  Bool-cases, eq_iff, Option, none, some, arith, ap,
}
use edu_learn_notification_s.Errors.{Err, Result, ok, err}
use edu_learn_notification_s.Notification.{Notification, NotificationCategory, map_to_category}
use edu_learn_notification_s.Notification.Validity.{map_to_category_idempotent}
use edu_learn_notification_s.Ports.{Cache, Page, NotificationFilter, NotificationRepository}
use edu_learn_notification_s.Redis.Laws.{CacheLaws}
use edu_learn_notification_s.NotificationStore.{
  NotificationModel, Database, notification_repository,
}
use edu_learn_notification_s.NotificationStore.Laws.{TableLaws, IsApart}
use edu_learn_notification_s.NotificationStore.Reads.{Fresh}
use edu_learn_notification_s.NotificationStore.Writes.{
  DeletesRun, mark_as_read-get_notification, delete_notification-get_notification,
}
use edu_learn_notification_s.Sending.Service.{filters, NotificationService, notification_service}
use edu_learn_notification_s.Grpc.{
  ProtoError, GetAllNotificationsSuccess, page_of, page_size_of, is_read_of, category_of, list_with,
  list_page, to_page, Request, Response, success, error, Reply, replies, panics, NotificationData,
  NotificationParams, finish, validated, to_data, serve_get_notification, serve_mark_as_read,
  serve_delete_notification, serve_get_notifications, get_notifications_request,
  get_notification_request, mark_notification_request, delete_notification_request,
}

module _ {W : Type 0} (text : Err → String) where
  finish-success :
      {A B : Type 0} (message : String) (f : A → B) (b : B) (r : Result A × W)
      → (finish text message (λ a. success (f a)) r).0 ≡ success b
      → (a : A) × (r.0 ≡ ok a) × (f a ≡ b)
  finish-success message f b (ok a, w) h = (a, refl, cc)
  finish-success message f b (err e, w) h = cc

  finish-state :
      {A B : Type 0} (message : String) (f : A → Response B) (r : Result A × W)
      → (finish text message f r).1 ≡ r.1
  finish-state message f (ok a, w) = refl
  finish-state message f (err e, w) = refl

  -- A request that is answered by a success was valid, and its call succeeded.
  answered :
      {A B : Type 0} (v : Result (Unit {0})) (invalid message : String) (f : A → B) (b : B)
      (m : W → Result A × W) (w : W)
      → (validated text v invalid (λ w. finish text message (λ a. success (f a)) (m w)) w).0
        ≡ success b
      → (a : A) × ((m w).0 ≡ ok a)
        × (f a ≡ b)
        × ((validated text v invalid (λ w. finish text message (λ a. success (f a)) (m w)) w).1
            ≡ (m w).1)
  answered (ok u) invalid message f b m w h =
      let (a, e, g) = finish-success message f b (m w) h in (a, e, g, finish-state message _ (m w))
  answered (err e) invalid message f b m w h = cc

module _ {W : Type 0} (db : Database W) (notes : Cache W Notification) (pages : Cache W Page)
    (flags : Cache W Bool) (row : String → W → Option NotificationModel)
    (peek : ℕ → String → W → Option Notification) (table : TableLaws db row)
    (cache : CacheLaws notes peek) (apart : IsApart db notes pages row peek) (text : Err → String)
    (validate : Request → Result (Unit {0})) (rfc3339 : ℕ → String) where
  abbrev service : NotificationService W
  service = notification_service (notification_repository db notes pages flags)

  got :
      (now : ℕ) (id user : String) (d : NotificationData) (w : W)
      → (serve_get_notification text validate service rfc3339 now id user w).0 ≡ success d
      → (n : Notification) × ((service.get_notification now id user w).0 ≡ ok n)
        × (n.is_read ≡ d.is_read)
  unfolding serve_get_notification
  got now id user d w h =
      let (n, e, f, s) =
        answered text (validate (get_notification_request id user)) _ _ (to_data rfc3339) d
          (service.get_notification now id user) w h in
      (n, e, ap (λ (x : NotificationData). x.is_read) f)

  -- Where the cache held nothing but rows and answers every Delete: after a DeleteNotification call that
  -- is answered by a success, no GetNotification call of the user is answered by the notification; and
  -- after a MarkAsRead call that is, one answered by a notification shows it as read.
  pub serve_delete_notification-serve_get_notification :
      (runs : DeletesRun db notes pages flags row peek table cache apart) (now : ℕ)
      (id user said : String) (done : Bool) (w : W)
      → Fresh db notes pages flags row peek table cache apart now w
      → ((serve_delete_notification text validate service rfc3339 now id user w).0 ≡ success done
          → (d : NotificationData)
          → (serve_get_notification text validate service rfc3339 now id user
              (serve_delete_notification text validate service rfc3339 now id user w).1).0
            ≢ success d)
        × ((serve_mark_as_read text validate service rfc3339 now id user w).0 ≡ success said
            → (d : NotificationData)
            → (serve_get_notification text validate service rfc3339 now id user
                (serve_mark_as_read text validate service rfc3339 now id user w).1).0
              ≡ success d
            → d.is_read ≡ true)
  unfolding serve_delete_notification serve_mark_as_read notification_service
      notification_repository
  serve_delete_notification-serve_get_notification runs now id user said done w fresh = (
    λ h d g.
        let (u, e, f, s) =
          answered text (validate (delete_notification_request id user)) _ _ (λ _. true) done
            (service.delete_notification id user) w h in
        let (n, found, r) = got now id user d _ g in
        (delete_notification-get_notification db notes pages flags row peek table cache apart runs
            now id user w fresh e).1
          n (subst (λ x. (service.get_notification now id user x).0 ≡ ok n) s found),
    λ h d g.
        let (u, e, f, s) =
          answered text (validate (mark_notification_request id user)) _ _
            (λ _. "Notification marked as read") said (service.mark_as_read now id user) w h in
        let (n, found, r) = got now id user d _ g in
        sym r
        ∙ (mark_as_read-get_notification db notes pages flags row peek table cache apart runs now id
              user w fresh e).1
            n (subst (λ x. (service.get_notification now id user x).0 ≡ ok n) s found),
  )

-- A reply to a call of the repository: a success with its notifications, in their order, and its
-- total modulo 2 ^ 32; or an error.
abbrev pub Answers :
    {W : Type 0} (rfc3339 : ℕ → String)
    → Result Page × W
    → Reply (Response GetAllNotificationsSuccess × W)
    → Type 0
Answers rfc3339 (ok page, w) r =
    (s : GetAllNotificationsSuccess) × (r ≡ replies (success s, w))
    × (s.notifications ≡ map (to_data rfc3339) page.notifications)
    × (s.total ≡ page.total % 4_294_967_296)
Answers rfc3339 (err e, w) r = (e : ProtoError) × (r ≡ replies (error e, w))

-- What a user's request with these parameters asks the repository for.
abbrev pub Asks : String → NotificationParams → NotificationFilter → Type 0
Asks user p f =
    (f.user_id ≡ user)
    × ((p.page ≡ 0 → f.page ≡ 1) × (p.page ≢ 0 → f.page ≡ p.page))
    × ((p.page_size ≡ 0 → f.page_size ≡ 10) × (p.page_size ≢ 0 → f.page_size ≡ p.page_size))
    × ((p.is_read ≡ true → f.is_read ≡ some true) × (p.is_read ≡ false → f.is_read ≡ none))
    × ((p.category ≡ "" → f.category ≡ none)
        × (p.category ≢ "" → f.category ≡ some (map_to_category p.category)))
    × ((c : NotificationCategory) → f.category ≡ some c → map_to_category c ≡ c)

category_known :
    (p : NotificationParams) (c : NotificationCategory)
    → category_of p ≡ some c
    → map_to_category c ≡ c
category_known p c e = elim (Bool-cases (p.category == "")) [
  | inl none_given ↦ absurd (ground arith)
  | inr given ↦
      let same : map_to_category p.category ≡ c = ground arith in
      subst (λ x. map_to_category x ≡ x) same (map_to_category_idempotent p.category)
]

module _ {W : Type 0} (repo : NotificationRepository W) (text : Err → String)
    (validate : Request → Result (Unit {0})) (rfc3339 : ℕ → String) where
  abbrev serve :
      ℕ → String → Option NotificationParams → W → Reply (Response GetAllNotificationsSuccess × W)
  serve now = serve_get_notifications text validate (notification_service repo) rfc3339 now

  listed-Answers :
      (now : ℕ) (r : Result Page × W)
      → Answers rfc3339 r (
          replies
            (finish text "Failed to get notifications" (λ page. success (to_page rfc3339 page)) r))
  listed-Answers now (ok page, w) = (_, refl, refl, refl)
  listed-Answers now (err e, w) = (_, refl)

  -- A valid GetNotifications request with no parameters brings the handler to a panic. With parameters
  -- it makes one call of the repository, for the user, the page and the size that are asked for, the
  -- first page and ten entries where none is given, for the notifications that are read if they are
  -- asked for and for all else, and for the category that the given one stands for, which is a known
  -- one, or for none; it is answered by a success exactly when that call succeeds, with the
  -- notifications that the repository gives and their total modulo 2 ^ 32, and leaves the state of the
  -- call.
  pub serve_get_notifications-Asks :
      (now : ℕ) (user : String) (w : W)
      → (validate (get_notifications_request user none) ≡ ok tt → serve now user none w ≡ panics)
        × ((p : NotificationParams)
            → validate (get_notifications_request user (some p)) ≡ ok tt
            → (f : NotificationFilter) × Asks user p f
              × Answers rfc3339 (repo.get_notifications now f w) (serve now user (some p) w))
  unfolding serve_get_notifications list_with list_page notification_service
  serve_get_notifications-Asks now user w = (
    λ valid. rw (valid, list_with),
    λ p valid.
        let f = filters user (page_of p) (page_size_of p) (is_read_of p) (category_of p) in
        (
          f,
          (
            refl,
            (ground arith, ground arith),
            (ground arith, ground arith),
            (ground arith, ground arith),
            (λ e. rw e refl, λ ne. ground (arith, eq_iff p.category "")),
            λ c e. category_known p c e,
          ),
          rw (valid, list_with) (listed-Answers now (repo.get_notifications now f w)),
        ),
  )
