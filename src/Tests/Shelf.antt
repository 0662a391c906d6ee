-- ===== src/Tests/Shelf.antt =====
-- A database with room for one notification, a cache of notifications in memory and a set of processed
-- events, with which the theorems on the repository and the handlers can be run.
use edu_learn_notification_s.Prelude.{
  ℕ, ◌+◌, ltb, Bool, true, false, ◌||◌, String, ◌≡◌, refl, [], Option, none, some, inl,
  if◌then◌else◌, ◌==◌, arith, eq_iff, eq_refl,
}
use edu_learn_notification_s.Errors.{Err, Result, ok, err, new}
use edu_learn_notification_s.Effect.{Exec}
use edu_learn_notification_s.Notification.{Notification}
use edu_learn_notification_s.Ports.{Cache, Page}
use edu_learn_notification_s.Redis.Laws.{CacheLaws, lifetime}
use edu_learn_notification_s.NotificationStore.{NotificationModel, Query, Database}
use edu_learn_notification_s.NotificationStore.Created.{CreateLaws}
use edu_learn_notification_s.NotificationStore.Laws.{TableLaws, IsApart, matches, updated, deleted}
use edu_learn_notification_s.NotificationStore.Processed.{FlagLaws}

pub record Shelf : Type 0 where
  pub kept : Option NotificationModel
  pub cached : String → Option (Notification × ℕ)
  pub seen : String → Bool

abbrev in_row : String → Option NotificationModel → Option NotificationModel
in_row j none = none
in_row j (some m) = if m.id == j then some m else none

abbrev pub row : String → Shelf → Option NotificationModel
row j s = in_row j s.kept

abbrev alive : ℕ → Option (Notification × ℕ) → Option Notification
alive now none = none
alive now (some (v, deadline)) = if ltb now deadline then some v else none

abbrev pub peek : ℕ → String → Shelf → Option Notification
peek now key s = alive now (s.cached key)

abbrev picked : Query → Option NotificationModel → Option NotificationModel
picked q none = none
picked q (some m) = if matches q m then some m else none

abbrev size : Option NotificationModel → ℕ
size none = 0
size (some m) = 1

abbrev create :
    NotificationModel → Option NotificationModel → Result (Unit {0}) × Option NotificationModel
create m none = (ok tt, some m)
create m (some old) = (err (new "full"), some old)

abbrev pub db : Database Shelf
db = record {
  create = λ m s. let (r, k) = create m s.kept in (r, record s { kept = k });
  first = λ q s. (ok (picked q s.kept), s);
  count = λ q s. (ok (size (picked q s.kept)), s);
  find = λ q limit offset s. (ok [], s);
  update_read = λ q now s. (ok (size (picked q s.kept)), record s { kept = updated q now s.kept });
  delete = λ q s. (ok (size (picked q s.kept)), record s { kept = deleted q s.kept });
  create_processed = λ id now s.
      if s.seen id
      then (err (new "duplicate key"), s)
      else (ok tt, record s { seen = λ j. id == j || s.seen j });
  count_processed = λ id s. (ok (if s.seen id then 1 else 0), s);
}

abbrev pub got : Option Notification → Result Notification
got none = err (new "miss")
got (some v) = ok v

abbrev pub notes : Cache Shelf Notification
notes = record {
  set = λ now k v ttl s. (
    ok tt,
    record s { cached = λ j. if k == j then some (v, now + lifetime ttl) else s.cached j },
  );
  get = λ now k s. (got (peek now k s), s);
  delete = λ k s. (ok tt, record s { cached = λ j. if k == j then none else s.cached j });
  exists = λ now k s. (ok false, s);
}

abbrev no_page : Exec Shelf Page
no_page s = (err (new "miss"), s)

abbrev pub pages : Cache Shelf Page
pages = record {
  set = λ now k v ttl s. (ok tt, s);
  get = λ now k. no_page;
  delete = λ k s. (ok tt, s);
  exists = λ now k s. (ok false, s);
}

abbrev pub flags : Cache Shelf Bool
flags = record {
  set = λ now k v ttl s. (ok tt, s);
  get = λ now k s. (err (new "miss"), s);
  delete = λ k s. (ok tt, s);
  exists = λ now k s. (ok false, s);
}

in_row-id :
    (k : Option NotificationModel) (j : String) (m : NotificationModel)
    → in_row j k ≡ some m
    → m.id ≡ j
in_row-id none j m h = absurd (ground arith)
in_row-id (some x) j m h = ground (arith, eq_iff x.id j)

picked-some :
    (q : Query) (k : Option NotificationModel) (m : NotificationModel)
    → ok (picked q k) ≡ ok (some m)
    → (in_row m.id k ≡ some m) × (matches q m ≡ true)
picked-some q none m h = absurd (ground arith)
picked-some q (some x) m h = ground (arith, eq_refl x.id)

picked-none :
    (q : Query) (k : Option NotificationModel) (j : String) (m : NotificationModel)
    → ok (picked q k) ≡ ok none
    → in_row j k ≡ some m
    → matches q m ≡ false
picked-none q none j m h r = absurd (ground arith)
picked-none q (some x) j m h r = ground arith

in_row-updated :
    (q : Query) (now : ℕ) (k : Option NotificationModel) (j : String)
    → in_row j (updated q now k) ≡ updated q now (in_row j k)
unfolding updated
in_row-updated q now none j = refl
in_row-updated q now (some x) j = ground arith

in_row-deleted :
    (q : Query) (k : Option NotificationModel) (j : String)
    → in_row j (deleted q k) ≡ deleted q (in_row j k)
unfolding deleted
in_row-deleted q none j = refl
in_row-deleted q (some x) j = ground arith

pub shelf-TableLaws : TableLaws db row
shelf-TableLaws = record {
  row_id = λ s. in_row-id s.kept;
  first_some = λ q s. picked-some q s.kept;
  first_none = λ q s. picked-none q s.kept;
  first_keeps = λ q s j. refl;
  update_ok = λ q now s count h. (now, in_row-updated q now s.kept);
  delete_ok = λ q s count j h. in_row-deleted q s.kept j;
}

found : (r : Option Notification) (v : Notification) → got r ≡ ok v → r ≡ some v
found none v h = absurd (ground arith)
found (some x) v h = ground arith

pub notes-CacheLaws : CacheLaws notes peek
notes-CacheLaws = record {
  get_found = λ now k s v h. found (peek now k s) v h;
  get_keeps = λ now k s n j. refl;
  set_ok = λ now k v ttl s h n j le. ground arith;
  delete_ok = λ k s h n j. ground arith;
}

pub shelf-IsApart : IsApart db notes pages row peek
shelf-IsApart = record {
  first_peek = λ q s n k. refl;
  update_peek = λ q now s n k. refl;
  delete_peek = λ q s n k. refl;
  get_row = λ now k s j. refl;
  set_row = λ now k v ttl s j. refl;
  drop_row = λ k s j. refl;
  page_row = λ k s j. refl;
  page_peek = λ u s n j. (refl, refl);
  set_any = λ now k v ttl s n j v' le h. ground (arith, eq_iff k j);
}

abbrev pub processed : String → Shelf → Bool
processed id s = s.seen id

abbrev pub flag : ℕ → String → Shelf → Option Bool
flag n k s = none

pub shelf-FlagLaws : FlagLaws db flags processed flag
shelf-FlagLaws = record {
  count_runs = λ id s. (if s.seen id then 1 else 0, refl, ground arith);
  count_keeps = λ id s j. refl;
  count_flag = λ id s n k. refl;
  create_ok = λ id now s j h. ground arith;
  create_fails = λ id now s e j h. ground arith;
  create_flag = λ id now s n k. ground arith;
  exists_flag = λ now k s h. absurd (cc);
  exists_keeps = λ now k s j. refl;
  exists_flags = λ now k s n j. refl;
  set_keeps = λ now k b ttl s j. refl;
  set_any = λ now k b ttl s n j b' le h. inl h;
}

created_row :
    (m : NotificationModel) (k : Option NotificationModel)
    → (create m k).0 ≡ ok tt
    → in_row m.id (create m k).1 ≡ some m
created_row m none h = ground (arith, eq_refl m.id)
created_row m (some old) h = absurd (ground arith)

taken_row :
    (m m' : NotificationModel) (k : Option NotificationModel)
    → in_row m.id k ≡ some m'
    → (e : Err) × ((create m k).0 ≡ err e)
taken_row m m' none h = absurd (ground arith)
taken_row m m' (some old) h = (new "full", refl)

failed_row :
    (m : NotificationModel) (k : Option NotificationModel) (e : Err) (j : String)
    → (create m k).0 ≡ err e
    → in_row j (create m k).1 ≡ in_row j k
failed_row m none e j h = absurd (ground arith)
failed_row m (some old) e j h = refl

pub shelf-CreateLaws : CreateLaws db pages row
shelf-CreateLaws = record {
  create_ok = λ m s. created_row m s.kept;
  create_taken = λ m m' s. taken_row m m' s.kept;
  create_fails = λ m s e j. failed_row m s.kept e j;
  page_row = λ k s j. refl;
}
