-- ===== src/NotificationStore/Writes.antt =====
-- What a write of the repository leaves to the reads that follow it.
use edu_learn_notification_s.Prelude.{
  ℕ, Bool, true, false, String, ◌≡◌, ◌≢◌, refl, sym, ap, ◌∙◌, Option, none, some, arith, eq_iff,
  ◌==◌, ==-append, Bool-cases, Option-cases, inl, inr, if◌then◌else◌,
}
use edu_learn_notification_s.Errors.{Result, Result-cases, ok, err}
use edu_learn_notification_s.Notification.{Notification}
use edu_learn_notification_s.Ports.{Cache, Page}
use edu_learn_notification_s.Redis.Laws.{CacheLaws}
use edu_learn_notification_s.NotificationStore.{
  NotificationModel, Database, to_model, one, notification_key, user_key, page_key,
  get_notification, mark_as_read, delete_notification, invalidate_user, both,
}
use edu_learn_notification_s.NotificationStore.Laws.{TableLaws, IsApart, matches, updated, deleted}
use edu_learn_notification_s.NotificationStore.Reads.{
  Fresh, get_notification-Reads, one-matches, matches-one,
}

module _ {W : Type 0} (db : Database W) (notes : Cache W Notification) (pages : Cache W Page)
    (flags : Cache W Bool) (row : String → W → Option NotificationModel)
    (peek : ℕ → String → W → Option Notification) (table : TableLaws db row)
    (cache : CacheLaws notes peek) (apart : IsApart db notes pages row peek) where
  abbrev IsFresh : ℕ → W → Type 0
  IsFresh = Fresh db notes pages flags row peek table cache apart

  both-state : (a b : Result (Unit {0})) (w : W) → (both db notes pages flags a b w).1 ≡ w
  unfolding both
  both-state (ok a) (ok b) w = refl
  both-state (ok a) (err e) w = refl
  both-state (err e) b w = refl

  -- Dropping the pages of a user changes no row and no notification of the cache.
  pub invalidate-row :
      (user : String) (w : W) (j : String)
      → row j (invalidate_user db notes pages flags user w).1 ≡ row j w
  unfolding invalidate_user
  invalidate-row user w j =
      let w' = (pages.delete (user_key user) w).1 in
      ap (row j) (both-state _ _ _)
      ∙ apart.page_row (page_key user) w' j
      ∙ apart.page_row (user_key user) w j

  pub invalidate-peek :
      (user : String) (w : W) (n : ℕ) (j : String)
      → peek n (notification_key j) (invalidate_user db notes pages flags user w).1
        ≡ peek n (notification_key j) w
  unfolding invalidate_user
  invalidate-peek user w n j =
      let w' = (pages.delete (user_key user) w).1 in
      ap (peek n (notification_key j)) (both-state _ _ _)
      ∙ (apart.page_peek user w' n j).1
      ∙ (apart.page_peek user w n j).0

  -- The cache answers every Delete.
  abbrev pub DeletesRun : Type 0
  DeletesRun = (key : String) (w : W) → (notes.delete key w).0 ≡ ok tt

  -- What MarkAsRead and DeleteNotification do after the table.
  abbrev cleaned : String → String → W → W
  cleaned id user w =
      (invalidate_user db notes pages flags user (notes.delete (notification_key id) w).1).1

  cleaned-row : (id user : String) (w : W) (j : String) → row j (cleaned id user w) ≡ row j w
  cleaned-row id user w j =
      invalidate-row user (notes.delete (notification_key id) w).1 j
      ∙ apart.drop_row (notification_key id) w j

  cleaned-peek :
      (runs : DeletesRun) (id user : String) (w : W) (n : ℕ) (j : String)
      → peek n (notification_key j) (cleaned id user w)
        ≡ (if id == j then none else peek n (notification_key j) w)
  cleaned-peek runs id user w n j =
      invalidate-peek user (notes.delete (notification_key id) w).1 n j
      ∙ cache.delete_ok (notification_key id) w (runs (notification_key id) w) n
          (notification_key j)
      ∙ ap (λ (b : Bool). if b then none else peek n (notification_key j) w)
          (==-append "notification:" id j)

  -- A write to the row of one identifier, with the cache cleaned for it, keeps the cache right.
  cleaned-Fresh :
      (runs : DeletesRun) (now : ℕ) (id user : String) (w w' : W)
      → IsFresh now w
      → ((j : String) → j ≢ id → row j w' ≡ row j w)
      → ((n : ℕ) (k : String) → peek n k w' ≡ peek n k w)
      → IsFresh now (cleaned id user w')
  cleaned-Fresh runs now id user w w' fresh rows peeks n j v le p = ground (
    arith,
    cleaned-row id user w' j,
    cleaned-peek runs id user w' n j,
    rows j,
    peeks n (notification_key j),
    fresh n j v le,
    eq_iff id j,
    p,
  )

  row-other :
      (id user : String) (w : W) (j : String) (m : NotificationModel)
      → j ≢ id
      → row j w ≡ some m
      → matches (one id user) m ≡ false
  row-other id user w j m ne r = elim (Bool-cases (matches (one id user) m)) [
    | inl t ↦ absurd (
        ne (
          sym (table.row_id w j m r)
          ∙ (matches-one db notes pages flags row peek table cache apart id user m t).0))
    | inr f ↦ f
  ]

  updated-other :
      (id user : String) (w : W) (time : ℕ) (j : String)
      → j ≢ id
      → updated (one id user) time (row j w) ≡ row j w
  unfolding updated
  updated-other id user w time j ne = elim (Option-cases (row j w)) [
    | inl e ↦ rw e refl
    | inr (m, e) ↦ rw (e, row-other id user w j m ne e) refl
  ]

  deleted-other :
      (id user : String) (w : W) (j : String) → j ≢ id → deleted (one id user) (row j w) ≡ row j w
  unfolding deleted
  deleted-other id user w j ne = elim (Option-cases (row j w)) [
    | inl e ↦ rw e refl
    | inr (m, e) ↦ rw (e, row-other id user w j m ne e) refl
  ]

  mark-state :
      (now : ℕ) (id user : String) (w : W)
      → (mark_as_read db notes pages flags now id user w).0 ≡ ok tt
      → (count : ℕ) × ((db.update_read (one id user) now w).0 ≡ ok count)
        × ((mark_as_read db notes pages flags now id user w).1
            ≡ cleaned id user (db.update_read (one id user) now w).1)
  unfolding mark_as_read
  mark-state now id user w h = elim (Result-cases (db.update_read (one id user) now w).0) [
    | inl (count, e) ↦ (count, e, ground arith)
    | inr (e, f) ↦ absurd (ground arith)
  ]

  read-Reads :
      (now : ℕ) (id user : String) (w : W) (v : Notification)
      → IsFresh now w
      → (get_notification db notes pages flags now id user w).0 ≡ ok v
      → (row id w ≡ some (to_model v)) × (v.user_id ≡ user)
  read-Reads now id user w v fresh e =
      rw e at
        (get_notification-Reads db notes pages flags row peek table cache apart now id user w
          fresh).0

  updated-is_read :
      (id user : String) (w : W) (time : ℕ) (v : Notification)
      → updated (one id user) time (row id w) ≡ some (to_model v)
      → v.user_id ≡ user
      → v.is_read ≡ true
  unfolding updated
  updated-is_read id user w time v e u = elim (Option-cases (row id w)) [
    | inl n ↦ absurd (ground arith)
    | inr (m, r) ↦ ground (
      arith,
      table.row_id w id m r,
      one-matches db notes pages flags row peek table cache apart id user m,
    )
  ]

  -- After a MarkAsRead that succeeds, with a cache that answers every Delete and held nothing but rows,
  -- it still holds nothing but rows, and a read of the notification by its user finds it read.
  pub mark_as_read-get_notification :
      (runs : DeletesRun) (now : ℕ) (id user : String) (w : W)
      → IsFresh now w
      → (mark_as_read db notes pages flags now id user w).0 ≡ ok tt
      → let w' = (mark_as_read db notes pages flags now id user w).1 in
        IsFresh now w'
        × ((v : Notification)
            → (get_notification db notes pages flags now id user w').0 ≡ ok v
            → v.is_read ≡ true)
  mark_as_read-get_notification runs now id user w fresh h =
      let (count, e, s) = mark-state now id user w h in
      let changed = (db.update_read (one id user) now w).1 in
      let (time, rows) = table.update_ok (one id user) now w count e in
      let still : IsFresh now (cleaned id user changed) =
        cleaned-Fresh runs now id user w changed fresh
          (λ j ne. rows j ∙ updated-other id user w time j ne)
          (apart.update_peek (one id user) now w) in
      rw s (
        still,
        λ v g.
            let (r, u) = read-Reads now id user (cleaned id user changed) v still g in
            updated-is_read id user w time v
              (sym (rows id) ∙ sym (cleaned-row id user changed id) ∙ r) u,
      )

  drop-state :
      (id user : String) (w : W)
      → (delete_notification db notes pages flags id user w).0 ≡ ok tt
      → (count : ℕ) × ((db.delete (one id user) w).0 ≡ ok count)
        × ((delete_notification db notes pages flags id user w).1
            ≡ cleaned id user (db.delete (one id user) w).1)
  unfolding delete_notification
  drop-state id user w h = elim (Result-cases (db.delete (one id user) w).0) [
    | inl (count, e) ↦ (count, e, ground arith)
    | inr (e, f) ↦ absurd (ground arith)
  ]

  deleted-owner :
      (id user : String) (w : W) (v : Notification)
      → deleted (one id user) (row id w) ≡ some (to_model v)
      → v.user_id ≢ user
  unfolding deleted
  deleted-owner id user w v e u = elim (Option-cases (row id w)) [
    | inl n ↦ absurd (ground arith)
    | inr (m, r) ↦ ground (
      arith,
      table.row_id w id m r,
      one-matches db notes pages flags row peek table cache apart id user m,
    )
  ]

  -- After a DeleteNotification that succeeds, with a cache that answers every Delete and held nothing but
  -- rows, it still holds nothing but rows, and no read finds the notification for its user.
  pub delete_notification-get_notification :
      (runs : DeletesRun) (now : ℕ) (id user : String) (w : W)
      → IsFresh now w
      → (delete_notification db notes pages flags id user w).0 ≡ ok tt
      → let w' = (delete_notification db notes pages flags id user w).1 in
        IsFresh now w'
        × ((v : Notification) → (get_notification db notes pages flags now id user w').0 ≢ ok v)
  delete_notification-get_notification runs now id user w fresh h =
      let (count, e, s) = drop-state id user w h in
      let changed = (db.delete (one id user) w).1 in
      let still : IsFresh now (cleaned id user changed) =
        cleaned-Fresh runs now id user w changed fresh
          (λ j ne. table.delete_ok (one id user) w count j e ∙ deleted-other id user w j ne)
          (apart.delete_peek (one id user) w) in
      rw s (
        still,
        λ v g.
            let (r, u) = read-Reads now id user (cleaned id user changed) v still g in
            deleted-owner id user w v
              (sym (table.delete_ok (one id user) w count id e)
                ∙ sym (cleaned-row id user changed id)
                ∙ r)
              u,
      )
