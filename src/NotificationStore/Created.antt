-- ===== src/NotificationStore/Created.antt =====
-- SaveNotification, and what it needs of the table: the identifier is its primary key.
use edu_learn_notification_s.Prelude.{
  ℕ, Bool, String, ◌≡◌, ◌∙◌, refl, Option, some, arith, inl, inr,
}
use edu_learn_notification_s.Errors.{Err, Result-cases, ok, err}
use edu_learn_notification_s.Notification.{Notification, validate}
use edu_learn_notification_s.Ports.{Cache, Page}
use edu_learn_notification_s.NotificationStore.{
  NotificationModel, Database, to_model, stamped, save_notification, invalidate_user, both,
  user_key, page_key,
}

-- gorm's Create: a row that is created is in the table, a key that is taken is refused, and a Create
-- that fails changes no row; nor does a removal from the cache of the pages.
pub record CreateLaws {W : Type 0} (db : Database W) (pages : Cache W Page)
    (row : String → W → Option NotificationModel) : Type 0 where
  pub create_ok :
      (m : NotificationModel) (w : W)
      → (db.create m w).0 ≡ ok tt
      → row m.id (db.create m w).1 ≡ some m
  pub create_taken :
      (m m' : NotificationModel) (w : W)
      → row m.id w ≡ some m'
      → (e : Err) × ((db.create m w).0 ≡ err e)
  pub create_fails :
      (m : NotificationModel) (w : W) (e : Err) (j : String)
      → (db.create m w).0 ≡ err e
      → row j (db.create m w).1 ≡ row j w
  pub page_row : (k : String) (w : W) (j : String) → row j (pages.delete k w).1 ≡ row j w

module _ {W : Type 0} (db : Database W) (notes : Cache W Notification) (pages : Cache W Page)
    (flags : Cache W Bool) (row : String → W → Option NotificationModel)
    (laws : CreateLaws db pages row) where
  invalidate_user-row :
      (user j : String) (w : W) → row j (invalidate_user db notes pages flags user w).1 ≡ row j w
  unfolding invalidate_user both
  invalidate_user-row user j w =
      let v = (pages.delete (user_key user) w).1 in
      ground (arith, laws.page_row (user_key user) w j, laws.page_row (page_key user) v j)

  -- A notification that is saved is the given one with its times, and is in the table.
  pub save_notification-row :
      (now : ℕ) (n m : Notification) (w : W)
      → (save_notification db notes pages flags now n w).0 ≡ ok m
      → (m ≡ stamped now n)
        × (row n.id (save_notification db notes pages flags now n w).1
            ≡ some (to_model (stamped now n)))
  unfolding save_notification
  save_notification-row now n m w h = elim (Result-cases (validate n)) [
    | inr (x, e) ↦ absurd (ground arith)
    | inl (tt, valid) ↦
        let model = to_model (stamped now n) in
        elim (Result-cases (db.create model w).0) [
          | inr (x, e) ↦ absurd (ground arith)
          | inl (tt, e) ↦
              let kept = invalidate_user-row n.user_id n.id (db.create model w).1 in
              (ground arith, rw (valid, e) (kept ∙ laws.create_ok model w e))
        ]
  ]

  -- A notification whose identifier is taken is not saved, and no row changes.
  pub save_notification_taken :
      (now : ℕ) (n : Notification) (m : NotificationModel) (w : W) (j : String)
      → row n.id w ≡ some m
      → (e : Err) × ((save_notification db notes pages flags now n w).0 ≡ err e)
        × (row j (save_notification db notes pages flags now n w).1 ≡ row j w)
  unfolding save_notification
  save_notification_taken now n m w j h = elim (Result-cases (validate n)) [
    | inr (x, e) ↦ rw e (_, refl, refl)
    | inl (tt, valid) ↦
        let model = to_model (stamped now n) in
        let (x, e) = laws.create_taken model m w h in
        rw (valid, e) (_, refl, laws.create_fails model w x j e)
  ]
