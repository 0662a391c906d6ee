-- ===== src/NotificationStore/Laws.antt =====
-- What the repository of the notifications relies on. `row j w` is the row of the primary key `j`,
-- `peek now key w` the notification that the cache holds alive.
use edu_learn_notification_s.Prelude.{
  ℕ, ◌&&◌, Bool, true, false, String, ◌≡◌, ◌⊎◌, ◌≤◌, Option, none, some, ◌==◌, if◌then◌else◌,
}
use edu_learn_notification_s.Errors.{ok}
use edu_learn_notification_s.Notification.{Notification}
use edu_learn_notification_s.Ports.{Cache, Page}
use edu_learn_notification_s.NotificationStore.{
  NotificationModel, Query, Database, notification_key, user_key, page_key,
}

given : Option String → String → Bool
given none text = true
given (some wanted) text = wanted == text

given_flag : Option Bool → Bool → Bool
given_flag none b = true
given_flag (some true) b = b
given_flag (some false) true = false
given_flag (some false) false = true

-- The row fulfils the conditions of a query.
unfoldable pub matches : Query → NotificationModel → Bool
unfolding given given_flag
matches q m =
    given q.id m.id
    && q.user_id == m.user_id
    && given q.category m.category
    && given_flag q.is_read m.is_read

-- A row after an update of the rows that match, the time as the database stores it.
unfoldable pub updated : Query → ℕ → Option NotificationModel → Option NotificationModel
updated q time none = none
updated q time (some m) =
    if matches q m then some (record m { is_read = true; updated_at = time }) else some m

unfoldable pub deleted : Query → Option NotificationModel → Option NotificationModel
deleted q none = none
deleted q (some m) = if matches q m then none else some m

-- gorm over a table with the primary key `id`. A call that fails promises nothing.
pub record TableLaws {W : Type 0} (db : Database W) (row : String → W → Option NotificationModel)
    : Type 0 where
  pub row_id : (w : W) (j : String) (m : NotificationModel) → row j w ≡ some m → m.id ≡ j
  pub first_some :
      (q : Query) (w : W) (m : NotificationModel)
      → (db.first q w).0 ≡ ok (some m)
      → (row m.id w ≡ some m) × (matches q m ≡ true)
  pub first_none :
      (q : Query) (w : W) (j : String) (m : NotificationModel)
      → (db.first q w).0 ≡ ok none
      → row j w ≡ some m
      → matches q m ≡ false
  pub first_keeps : (q : Query) (w : W) (j : String) → row j (db.first q w).1 ≡ row j w
  pub update_ok :
      (q : Query) (now : ℕ) (w : W) (count : ℕ)
      → (db.update_read q now w).0 ≡ ok count
      → (time : ℕ) × ((j : String) → row j (db.update_read q now w).1 ≡ updated q time (row j w))
  pub delete_ok :
      (q : Query) (w : W) (count : ℕ) (j : String)
      → (db.delete q w).0 ≡ ok count
      → row j (db.delete q w).1 ≡ deleted q (row j w)

-- The table, the cache of the notifications and the cache of the pages do not touch each other, and
-- the keys of the pages are no keys of notifications; a write of the cache, one that fails too, puts
-- nothing but its value under its key.
pub record IsApart {W : Type 0} (db : Database W) (notes : Cache W Notification)
    (pages : Cache W Page) (row : String → W → Option NotificationModel)
    (peek : ℕ → String → W → Option Notification) : Type 0 where
  pub first_peek : (q : Query) (w : W) (n : ℕ) (k : String) → peek n k (db.first q w).1 ≡ peek n k w
  pub update_peek :
      (q : Query) (now : ℕ) (w : W) (n : ℕ) (k : String)
      → peek n k (db.update_read q now w).1 ≡ peek n k w
  pub delete_peek :
      (q : Query) (w : W) (n : ℕ) (k : String) → peek n k (db.delete q w).1 ≡ peek n k w
  pub get_row : (now : ℕ) (k : String) (w : W) (j : String) → row j (notes.get now k w).1 ≡ row j w
  pub set_row :
      (now : ℕ) (k : String) (v : Notification) (ttl : ℕ) (w : W) (j : String)
      → row j (notes.set now k v ttl w).1 ≡ row j w
  pub drop_row : (k : String) (w : W) (j : String) → row j (notes.delete k w).1 ≡ row j w
  pub page_row : (k : String) (w : W) (j : String) → row j (pages.delete k w).1 ≡ row j w
  pub page_peek :
      (u : String) (w : W) (n : ℕ) (j : String)
      → (peek n (notification_key j) (pages.delete (user_key u) w).1
          ≡ peek n (notification_key j) w)
        × (peek n (notification_key j) (pages.delete (page_key u) w).1
            ≡ peek n (notification_key j) w)
  pub set_any :
      (now : ℕ) (k : String) (v : Notification) (ttl : ℕ) (w : W) (n : ℕ) (j : String)
      (v' : Notification)
      → now ≤ n
      → peek n j (notes.set now k v ttl w).1 ≡ some v'
      → (peek n j w ≡ some v') ⊎ ((k ≡ j) × (v' ≡ v))
