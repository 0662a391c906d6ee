-- ===== src/NotificationStore/Reads.antt =====
-- What a read of a notification returns, and the writes it follows.
use edu_learn_notification_s.Prelude.{
  ℕ, ◌≤◌, Bool, true, String, ◌≡◌, ◌≢◌, refl, sym, ap, ◌∙◌, append-injective, ◌*◌, Option, none,
  some, arith, eq_iff, ◌==◌, inl, inr, Bool-cases,
}
use edu_learn_notification_s.Errors.{Result-cases, Result, ok, err, domain, notification_not_found}
use edu_learn_notification_s.Otp.{minute}
use edu_learn_notification_s.Notification.{Notification}
use edu_learn_notification_s.Ports.{Cache, Page}
use edu_learn_notification_s.Redis.Laws.{CacheLaws}
use edu_learn_notification_s.NotificationStore.{
  NotificationModel, Query, Database, to_model, to_entity, one, notification_key, keep_found,
  from_table, or_table, get_notification,
}
use edu_learn_notification_s.NotificationStore.Laws.{TableLaws, IsApart, matches}

module _ {W : Type 0} (db : Database W) (notes : Cache W Notification) (pages : Cache W Page)
    (flags : Cache W Bool) (row : String → W → Option NotificationModel)
    (peek : ℕ → String → W → Option Notification) (table : TableLaws db row)
    (cache : CacheLaws notes peek) (apart : IsApart db notes pages row peek) where
  -- From the time on, what the cache holds of a notification is its row.
  abbrev pub Fresh : ℕ → W → Type 0
  Fresh now w =
      (n : ℕ) (id : String) (v : Notification)
      → now ≤ n
      → peek n (notification_key id) w ≡ some v
      → row id w ≡ some (to_model v)

  -- The answer of a read is right about the table.
  abbrev pub Reads : String → String → W → Result Notification → Type 0
  Reads id user w (ok v) = (row id w ≡ some (to_model v)) × (v.user_id ≡ user)
  Reads id user w (err (domain notification_not_found)) =
      (m : NotificationModel) → row id w ≡ some m → m.user_id ≢ user
  Reads id user w (err e) = Unit {0}

  pub matches-one :
      (id user : String) (m : NotificationModel)
      → matches (one id user) m ≡ true
      → (m.id ≡ id) × (m.user_id ≡ user)
  unfolding matches
  matches-one id user m h = ground (arith, eq_iff id m.id, eq_iff user m.user_id)

  pub one-matches :
      (id user : String) (m : NotificationModel)
      → m.id ≡ id
      → m.user_id ≡ user
      → matches (one id user) m ≡ true
  unfolding matches
  one-matches id user m e f = ground (arith, eq_iff id m.id, eq_iff user m.user_id)

  keep-Reads :
      (now : ℕ) (id user : String) (w w' : W) (found : Option NotificationModel)
      → (db.first (one id user) w).0 ≡ ok found
      → Reads id user w (keep_found db notes pages flags now id found w').0
  unfolding keep_found
  keep-Reads now id user w w' none e = λ m r u. ground (
    arith,
    table.first_none (one id user) w id m e r,
    one-matches id user m (table.row_id w id m r) u,
  )
  keep-Reads now id user w w' (some m) e =
      let (r, f) = table.first_some (one id user) w m e in
      let (same, owner) = matches-one id user m f in (ap (λ j. row j w) (sym same) ∙ r, owner)

  first-Reads :
      (now : ℕ) (id user : String) (w : W)
      → Reads id user w (from_table db notes pages flags now id user w).0
  unfolding from_table
  first-Reads now id user w = elim (Result-cases (db.first (one id user) w).0) [
    | inl (found, e) ↦ rw e (keep-Reads now id user w (db.first (one id user) w).1 found e)
    | inr (e, f) ↦ rw f tt
  ]

  query-Fresh : (now : ℕ) (q : Query) (w : W) → Fresh now w → Fresh now (db.first q w).1
  query-Fresh now q w fresh n j v le p =
      table.first_keeps q w j
      ∙ fresh n j v le (sym (apart.first_peek q w n (notification_key j)) ∙ p)

  key-injective : (a b : String) → notification_key a ≡ notification_key b → a ≡ b
  key-injective a b e = append-injective "notification:" a b e

  found-row :
      (now : ℕ) (id user : String) (w : W) (found : Option NotificationModel)
      → (db.first (one id user) w).0 ≡ ok found
      → (m : NotificationModel) → found ≡ some m
      → row id (db.first (one id user) w).1 ≡ some m
  found-row now id user w found e m s =
      let (r, f) = table.first_some (one id user) w m (e ∙ ap ok s) in
      let (same, owner) = matches-one id user m f in
      table.first_keeps (one id user) w id ∙ ap (λ j. row j w) (sym same) ∙ r

  -- What a read puts into the cache is the row.
  keep-Fresh :
      (now : ℕ) (id : String) (found : Option NotificationModel) (w : W)
      → Fresh now w
      → ((m : NotificationModel) → found ≡ some m → row id w ≡ some m)
      → Fresh now (keep_found db notes pages flags now id found w).1
  unfolding keep_found
  keep-Fresh now id none w fresh r = fresh
  keep-Fresh now id (some m) w fresh r =
      let set_row = apart.set_row now (notification_key id) (to_entity m) (5 * minute) w in
      let set_any = apart.set_any now (notification_key id) (to_entity m) (5 * minute) w in
      λ n j v le p. set_row j ∙ elim (set_any n (notification_key j) v le p) [
        | inl old ↦ fresh n j v le old
        | inr (k, same) ↦
            ap (λ i. row i w) (sym (key-injective id j k))
            ∙ r m refl
            ∙ ap (λ x. some (to_model x)) (sym same)
      ]

  table-Fresh :
      (now : ℕ) (id user : String) (w : W)
      → Fresh now w
      → Fresh now (from_table db notes pages flags now id user w).1
  unfolding from_table
  table-Fresh now id user w fresh = elim (Result-cases (db.first (one id user) w).0) [
    | inl (found, e) ↦ rw e (
        keep-Fresh now id found (db.first (one id user) w).1 (query-Fresh now (one id user) w fresh)
          (found-row now id user w found e))
    | inr (e, f) ↦ rw f (query-Fresh now (one id user) w fresh)
  ]

  looked-Fresh : (now : ℕ) (key : String) (w : W) → Fresh now w → Fresh now (notes.get now key w).1
  looked-Fresh now key w fresh n j v le p =
      apart.get_row now key w j
      ∙ fresh n j v le (sym (cache.get_keeps now key w n (notification_key j)) ∙ p)

  Reads-back :
      (id user : String) (w w' : W) (r : Result Notification)
      → row id w' ≡ row id w
      → Reads id user w' r
      → Reads id user w r
  Reads-back id user w w' (ok v) e (p, q) = (sym e ∙ p, q)
  Reads-back id user w w' (err (domain notification_not_found)) e p = λ m h. p m (e ∙ h)
  Reads-back id user w w' (err x) e p = tt

  or_table-Reads :
      (now : ℕ) (id user : String) (w : W) (r : Result Notification)
      → ((v : Notification) → r ≡ ok v → row id w ≡ some (to_model v))
      → Reads id user w (or_table db notes pages flags now id user r w).0
  unfolding or_table
  or_table-Reads now id user w (ok v) h = elim (Bool-cases (v.user_id == user)) [
    | inl e ↦ rw e (h v refl, ground (arith, eq_iff v.user_id user))
    | inr e ↦ rw e (first-Reads now id user w)
  ]
  or_table-Reads now id user w (err e) h = first-Reads now id user w

  or_table-Fresh :
      (now : ℕ) (id user : String) (w : W) (r : Result Notification)
      → Fresh now w
      → Fresh now (or_table db notes pages flags now id user r w).1
  unfolding or_table
  or_table-Fresh now id user w (ok v) fresh = elim (Bool-cases (v.user_id == user)) [
    | inl e ↦ rw e fresh
    | inr e ↦ rw e (table-Fresh now id user w fresh)
  ]
  or_table-Fresh now id user w (err e) fresh = table-Fresh now id user w fresh

  -- While the cache holds nothing but rows of the table, a read answers from the table, whether it finds
  -- the notification in the cache or not: a notification that it returns is the row of the identifier
  -- and belongs to the user, and "not found" means that the user has no such row. After the read the
  -- cache still holds nothing but rows.
  pub get_notification-Reads :
      (now : ℕ) (id user : String) (w : W)
      → Fresh now w
      → Reads id user w (get_notification db notes pages flags now id user w).0
        × Fresh now (get_notification db notes pages flags now id user w).1
  unfolding get_notification
  get_notification-Reads now id user w fresh =
      let key = notification_key id in
      let r = (notes.get now key w).0 in
      let w' = (notes.get now key w).1 in
      (
        Reads-back id user w w' (or_table db notes pages flags now id user r w').0
            (apart.get_row now key w id)
            (or_table-Reads now id user w' r λ v e.
              apart.get_row now key w id
              ∙ fresh now id v (omega arith) (cache.get_found now key w v e)),
        or_table-Fresh now id user w' r (looked-Fresh now key w fresh),
      )
