-- ===== src/NotificationStore/Processed.antt =====
-- The record of the processed events: the contract that the handlers of the messages rely on, and the
-- proof that the repository meets it.
use edu_learn_notification_s.Prelude.{
  ℕ, ◌≤◌, ◌*◌, Bool, true, false, ◌||◌, String, ◌≡◌, refl, sym, ap, ◌∙◌, Option, some, ltb, ◌==◌,
  arith, eq_iff, append-injective, inl, inr, ◌⊎◌, Bool-cases,
}
use edu_learn_notification_s.Errors.{Err, Result, Result-cases, ok, err}
use edu_learn_notification_s.Effect.{Exec}
use edu_learn_notification_s.Otp.{minute}
use edu_learn_notification_s.Notification.{Notification}
use edu_learn_notification_s.Ports.{Cache, Page, NotificationRepository}
use edu_learn_notification_s.NotificationStore.{
  Database, processed_key, notification_repository, check_if_processed, mark_as_processed, or_count,
  flag_counted,
}

-- `processed id w` tells whether the event has been marked; `Ready now w` that the repository is in
-- order from the time `now` on.
pub record ProcessedLaws {W : Type 0} (r : NotificationRepository W) (processed : String → W → Bool)
    (Ready : ℕ → W → Type 0) : Type 0 where
  pub check_runs :
      (now : ℕ) (id : String) (w : W)
      → Ready now w
      → (r.check_if_processed now id w).0 ≡ ok (processed id w)
  pub check_keeps :
      (now : ℕ) (id : String) (w : W) (j : String)
      → processed j (r.check_if_processed now id w).1 ≡ processed j w
  pub check_ready :
      (now : ℕ) (id : String) (w : W) → Ready now w → Ready now (r.check_if_processed now id w).1
  pub mark_ok :
      (now : ℕ) (id : String) (w : W) (j : String)
      → (r.mark_as_processed now id w).0 ≡ ok tt
      → processed j (r.mark_as_processed now id w).1 ≡ (id == j || processed j w)
  pub mark_fails :
      (now : ℕ) (id : String) (w : W) (e : Err) (j : String)
      → (r.mark_as_processed now id w).0 ≡ err e
      → processed j (r.mark_as_processed now id w).1 ≡ processed j w
  pub mark_ready :
      (now : ℕ) (id : String) (w : W) → Ready now w → Ready now (r.mark_as_processed now id w).1

-- A database that answers, and a cache of flags that may fail: `flag now key w` is the flag that is
-- alive. A `Create` that succeeds adds its event to the table, one that fails leaves the table as it is.
pub record FlagLaws {W : Type 0} (db : Database W) (flags : Cache W Bool)
    (processed : String → W → Bool) (flag : ℕ → String → W → Option Bool) : Type 0 where
  pub count_runs :
      (id : String) (w : W)
      → (count : ℕ) × ((db.count_processed id w).0 ≡ ok count) × (ltb 0 count ≡ processed id w)
  pub count_keeps :
      (id : String) (w : W) (j : String) → processed j (db.count_processed id w).1 ≡ processed j w
  pub count_flag :
      (id : String) (w : W) (n : ℕ) (k : String) → flag n k (db.count_processed id w).1 ≡ flag n k w
  pub create_ok :
      (id : String) (now : ℕ) (w : W) (j : String)
      → (db.create_processed id now w).0 ≡ ok tt
      → processed j (db.create_processed id now w).1 ≡ (id == j || processed j w)
  pub create_fails :
      (id : String) (now : ℕ) (w : W) (e : Err) (j : String)
      → (db.create_processed id now w).0 ≡ err e
      → processed j (db.create_processed id now w).1 ≡ processed j w
  pub create_flag :
      (id : String) (now : ℕ) (w : W) (n : ℕ) (k : String)
      → flag n k (db.create_processed id now w).1 ≡ flag n k w
  pub exists_flag :
      (now : ℕ) (k : String) (w : W)
      → (flags.exists now k w).0 ≡ ok true
      → (b : Bool) × (flag now k w ≡ some b)
  pub exists_keeps :
      (now : ℕ) (k : String) (w : W) (j : String)
      → processed j (flags.exists now k w).1 ≡ processed j w
  pub exists_flags :
      (now : ℕ) (k : String) (w : W) (n : ℕ) (j : String)
      → flag n j (flags.exists now k w).1 ≡ flag n j w
  pub set_keeps :
      (now : ℕ) (k : String) (b : Bool) (ttl : ℕ) (w : W) (j : String)
      → processed j (flags.set now k b ttl w).1 ≡ processed j w
  pub set_any :
      (now : ℕ) (k : String) (b : Bool) (ttl : ℕ) (w : W) (n : ℕ) (j : String) (b' : Bool)
      → now ≤ n
      → flag n j (flags.set now k b ttl w).1 ≡ some b'
      → (flag n j w ≡ some b') ⊎ (k ≡ j)

module _ {W : Type 0} (db : Database W) (notes : Cache W Notification) (pages : Cache W Page)
    (flags : Cache W Bool) (processed : String → W → Bool) (flag : ℕ → String → W → Option Bool)
    (laws : FlagLaws db flags processed flag) where
  -- From the time on, a flag stands only for an event of the table.
  abbrev pub Flagged : ℕ → W → Type 0
  Flagged now w =
      (n : ℕ) (id : String) (b : Bool)
      → now ≤ n
      → flag n (processed_key id) w ≡ some b
      → processed id w ≡ true

  counted-runs :
      (now : ℕ) (id : String) (count : ℕ) (w : W)
      → (flag_counted db notes pages flags now id count w).0 ≡ ok (ltb 0 count)
  unfolding flag_counted
  counted-runs now id count w = ground arith

  counted-keeps :
      (now : ℕ) (id : String) (count : ℕ) (w : W) (j : String)
      → processed j (flag_counted db notes pages flags now id count w).1 ≡ processed j w
  unfolding flag_counted
  counted-keeps now id count w j =
      ground (arith, laws.set_keeps now (processed_key id) true (60 * minute) w j)

  set-Flagged :
      (now : ℕ) (id : String) (ttl : ℕ) (w : W)
      → processed id w ≡ true
      → Flagged now w
      → Flagged now (flags.set now (processed_key id) true ttl w).1
  set-Flagged now id ttl w p f n j b le e =
      laws.set_keeps now (processed_key id) true ttl w j
      ∙ elim (laws.set_any now (processed_key id) true ttl w n (processed_key j) b le e) [
        | inl old ↦ f n j b le old
        | inr same ↦ ap (λ i. processed i w) (sym (append-injective "processed:" id j same)) ∙ p
      ]

  counted-Flagged :
      (now : ℕ) (id : String) (count : ℕ) (w : W)
      → ltb 0 count ≡ processed id w
      → Flagged now w
      → Flagged now (flag_counted db notes pages flags now id count w).1
  unfolding flag_counted
  counted-Flagged now id count w p f = elim (Bool-cases (ltb 0 count)) [
    | inl e ↦ rw e (set-Flagged now id (60 * minute) w (sym p ∙ e) f)
    | inr e ↦ rw e f
  ]

  -- The count of the table, where the cache has no flag.
  abbrev from_count : ℕ → String → Exec W Bool
  from_count now id w = or_count db notes pages flags now id (ok false) w

  from_count-runs : (now : ℕ) (id : String) (w : W) → (from_count now id w).0 ≡ ok (processed id w)
  unfolding or_count
  from_count-runs now id w =
      let (count, e, p) = laws.count_runs id w in
      rw e (counted-runs now id count (db.count_processed id w).1 ∙ ap ok p)

  from_count-keeps :
      (now : ℕ) (id : String) (w : W) (j : String)
      → processed j (from_count now id w).1 ≡ processed j w
  unfolding or_count
  from_count-keeps now id w j =
      let (count, e, p) = laws.count_runs id w in
      rw e (counted-keeps now id count (db.count_processed id w).1 j ∙ laws.count_keeps id w j)

  from_count-Flagged :
      (now : ℕ) (id : String) (w : W) → Flagged now w → Flagged now (from_count now id w).1
  unfolding or_count
  from_count-Flagged now id w f =
      let (count, e, p) = laws.count_runs id w in
      let w' = (db.count_processed id w).1 in
      rw e (
        counted-Flagged now id count w' (p ∙ sym (laws.count_keeps id w id)) λ n j b le h.
          laws.count_keeps id w j ∙ f n j b le (sym (laws.count_flag id w n (processed_key j)) ∙ h))

  -- An answer `ok true` of the cache ends the check, and every other goes on to the table.
  or_count-cases :
      (now : ℕ) (id : String) (r : Result Bool) (w : W)
      → ((r ≡ ok true) × (or_count db notes pages flags now id r w ≡ (ok true, w)))
        ⊎ (or_count db notes pages flags now id r w ≡ from_count now id w)
  unfolding or_count
  or_count-cases now id (ok true) w = inl (refl, refl)
  or_count-cases now id (ok false) w = inr refl
  or_count-cases now id (err e) w = inr refl

  seen-Flagged :
      (now : ℕ) (id : String) (w : W)
      → Flagged now w
      → Flagged now (flags.exists now (processed_key id) w).1
  seen-Flagged now id w f n j b le h =
      laws.exists_keeps now (processed_key id) w j
      ∙ f n j b le (sym (laws.exists_flags now (processed_key id) w n (processed_key j)) ∙ h)

  check-runs :
      (now : ℕ) (id : String) (w : W)
      → Flagged now w
      → (check_if_processed db notes pages flags now id w).0 ≡ ok (processed id w)
  unfolding check_if_processed
  check-runs now id w f =
      let key = processed_key id in
      let w' = (flags.exists now key w).1 in
      elim (or_count-cases now id (flags.exists now key w).0 w') [
        | inl (e, h) ↦
            let (b, p) = laws.exists_flag now key w e in
            ap (λ (x : Result Bool × W). x.0) h ∙ ap ok (sym (f now id b (omega arith) p))
        | inr h ↦
            ap (λ (x : Result Bool × W). x.0) h
            ∙ from_count-runs now id w'
            ∙ ap ok (laws.exists_keeps now key w id)
      ]

  check-keeps :
      (now : ℕ) (id : String) (w : W) (j : String)
      → processed j (check_if_processed db notes pages flags now id w).1 ≡ processed j w
  unfolding check_if_processed
  check-keeps now id w j =
      let key = processed_key id in
      let w' = (flags.exists now key w).1 in
      elim (or_count-cases now id (flags.exists now key w).0 w') [
        | inl (e, h) ↦
            ap (λ (x : Result Bool × W). processed j x.1) h ∙ laws.exists_keeps now key w j
        | inr h ↦
            ap (λ (x : Result Bool × W). processed j x.1) h
            ∙ from_count-keeps now id w' j
            ∙ laws.exists_keeps now key w j
      ]

  check-Flagged :
      (now : ℕ) (id : String) (w : W)
      → Flagged now w
      → Flagged now (check_if_processed db notes pages flags now id w).1
  unfolding check_if_processed
  check-Flagged now id w f =
      let key = processed_key id in
      let w' = (flags.exists now key w).1 in
      elim (or_count-cases now id (flags.exists now key w).0 w') [
        | inl (e, h) ↦ rw h (seen-Flagged now id w f)
        | inr h ↦ rw h (from_count-Flagged now id w' (seen-Flagged now id w f))
      ]

  mark-ok :
      (now : ℕ) (id : String) (w : W) (j : String)
      → (mark_as_processed db notes pages flags now id w).0 ≡ ok tt
      → processed j (mark_as_processed db notes pages flags now id w).1 ≡ (id == j || processed j w)
  unfolding mark_as_processed
  mark-ok now id w j h = elim (Result-cases (db.create_processed id now w).0) [
    | inl (tt, e) ↦ rw e (
        laws.set_keeps now (processed_key id) true (60 * minute) (db.create_processed id now w).1 j
        ∙ laws.create_ok id now w j e)
    | inr (x, e) ↦ absurd (ground arith)
  ]

  mark-fails :
      (now : ℕ) (id : String) (w : W) (e : Err) (j : String)
      → (mark_as_processed db notes pages flags now id w).0 ≡ err e
      → processed j (mark_as_processed db notes pages flags now id w).1 ≡ processed j w
  unfolding mark_as_processed
  mark-fails now id w e j h = elim (Result-cases (db.create_processed id now w).0) [
    | inl (u, good) ↦ absurd (ground arith)
    | inr (x, bad) ↦ rw bad (laws.create_fails id now w x j bad)
  ]

  created-keeps :
      (now : ℕ) (id : String) (w : W) (j : String)
      → processed j w ≡ true
      → processed j (db.create_processed id now w).1 ≡ true
  created-keeps now id w j p = elim (Result-cases (db.create_processed id now w).0) [
    | inl (tt, e) ↦ ground (arith, laws.create_ok id now w j e)
    | inr (x, e) ↦ laws.create_fails id now w x j e ∙ p
  ]

  created-Flagged :
      (now : ℕ) (id : String) (w : W) → Flagged now w → Flagged now (db.create_processed id now w).1
  created-Flagged now id w f n j b le h =
      created-keeps now id w j
        (f n j b le (sym (laws.create_flag id now w n (processed_key j)) ∙ h))

  mark-Flagged :
      (now : ℕ) (id : String) (w : W)
      → Flagged now w
      → Flagged now (mark_as_processed db notes pages flags now id w).1
  unfolding mark_as_processed
  mark-Flagged now id w f = elim (Result-cases (db.create_processed id now w).0) [
    | inl (tt, e) ↦ rw e (
        set-Flagged now id (60 * minute) (db.create_processed id now w).1
          (ground (arith, laws.create_ok id now w id e, eq_iff id id)) (created-Flagged now id w f))
    | inr (x, e) ↦ rw e (created-Flagged now id w f)
  ]

  -- The repository keeps the contract of the processed events over a database whose counts succeed,
  -- whatever the cache of flags fails to do: a check tells exactly whether the event was marked, and marks
  -- none; a mark that succeeds marks its event and no other, and one that fails leaves every event as
  -- it was; and a flag never stands for an event that is not in the table.
  pub notification_repository-ProcessedLaws :
      ProcessedLaws (notification_repository db notes pages flags) processed Flagged
  unfolding notification_repository
  notification_repository-ProcessedLaws = record {
    check_runs = check-runs;
    check_keeps = check-keeps;
    check_ready = check-Flagged;
    mark_ok = mark-ok;
    mark_fails = mark-fails;
    mark_ready = mark-Flagged;
  }
