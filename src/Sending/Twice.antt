-- ===== src/Sending/Twice.antt =====
-- An in-app notification that the service creates is saved twice: by the service, and by the strategy.
use edu_learn_notification_s.Prelude.{
  ℕ, Bool, Option, none, some, ◌⊎◌, String, ◌≡◌, ◌≢◌, refl, ap, sym, ◌∙◌, [], ◌∷◌, arith, eq_iff,
  inl, inr,
}
use edu_learn_notification_s.Errors.{Err, Result-cases, ok, err}
use edu_learn_notification_s.Effect.{Exec}
use edu_learn_notification_s.Notification.{
  Notification, InAppWsMessage, blank, email_notification, inapp_notification,
}
use edu_learn_notification_s.NotificationStore.{
  NotificationModel, Database, to_model, stamped, save_notification, notification_repository,
}
use edu_learn_notification_s.NotificationStore.Created.{
  CreateLaws, save_notification-row, save_notification_taken,
}
use edu_learn_notification_s.Ports.{
  Cache, Page, NotificationRepository, NotificationSender, EmailSender, WsHubAdaptor,
}
use edu_learn_notification_s.Sending.{
  Strategies, filled, strategies_of, send_each, require_strategies, dispatch, identified, fill,
  checked, saved, save, in_app_strategy, email_strategy, queue, stored, create_and_queue,
}

module _ {W : Type 0} (repo : NotificationRepository W) (hub : WsHubAdaptor W)
    (sender : EmailSender W) (to_message : Notification → InAppWsMessage)
    (new_id : Exec W String) where
  -- The strategies of the wiring, internal/bootstrap/di.go.
  abbrev pub wired : ℕ → Strategies W
  wired now =
      (email_notification, email_strategy now new_id sender ∷ [])
      ∷ (inapp_notification, in_app_strategy now new_id repo hub to_message ∷ [])
      ∷ []

  save-fails :
      (now : ℕ) (n : Notification) (w : W) (e : Err)
      → (repo.save_notification now n w).0 ≡ err e
      → (save now new_id repo (n, w)).0 ≢ ok tt
  unfolding save saved
  save-fails now n w e f h = ground arith

  strategy-fails :
      (now : ℕ) (m : Notification) (w : W)
      → m.id ≢ ""
      → ((n' : Notification)
          → n'.id ≡ m.id
          → (e : Err) × ((repo.save_notification now n' w).0 ≡ err e))
      → ((in_app_strategy now new_id repo hub to_message).send (m, w)).0 ≢ ok tt
  unfolding in_app_strategy identified fill checked save saved
  strategy-fails now m w ne fails h =
      let (e, f) = fails (filled inapp_notification now m) refl in ground (arith, eq_iff m.id "", f)

  -- Where the identifier is taken, the strategy changes no row.
  strategy-row :
      {A : Type 0} (row : String → W → A) (now : ℕ) (m : Notification) (w : W) (j : String)
      → m.id ≢ ""
      → ((n' : Notification)
          → n'.id ≡ m.id
          → (e : Err) × ((repo.save_notification now n' w).0 ≡ err e)
            × (row j (repo.save_notification now n' w).1 ≡ row j w))
      → row j ((in_app_strategy now new_id repo hub to_message).send (m, w)).1.1 ≡ row j w
  unfolding in_app_strategy identified fill checked save saved
  strategy-row row now m w j ne fails =
      let (e, f, same) = fails (filled inapp_notification now m) refl in
      ground (arith, eq_iff m.id "", f, same)

  single-state :
      (s : NotificationSender W) (p : Notification × W)
      → (require_strategies (s ∷ []) p).1 ≡ (s.send p).1
  unfolding require_strategies send_each
  single-state s p = elim (Result-cases (s.send p).0) [
    | inl (tt, e) ↦ rw e refl
    | inr (x, e) ↦ rw e refl
  ]

  single :
      (s : NotificationSender W) (p : Notification × W)
      → (require_strategies (s ∷ []) p).0 ≡ ok tt
      → (s.send p).0 ≡ ok tt
  unfolding require_strategies send_each
  single s p h = elim (Result-cases (s.send p).0) [
    | inl (u, e) ↦ e
    | inr (x, e) ↦ absurd (ground arith)
  ]

  dispatched :
      (now : ℕ) (m : Notification) (w : W)
      → m.type ≡ inapp_notification
      → (dispatch (wired now) (m, w)).0 ≡ ok tt
      → ((in_app_strategy now new_id repo hub to_message).send (m, w)).0 ≡ ok tt
  unfolding dispatch strategies_of
  dispatched now m w t h =
      let found = ap (λ u. strategies_of u (wired now)) t in
      single (in_app_strategy now new_id repo hub to_message) (m, w)
        (ap (λ ss. (require_strategies ss (m, w)).0) (sym found) ∙ h)

  dispatched-state :
      (now : ℕ) (m : Notification) (w : W)
      → m.type ≡ inapp_notification
      → (dispatch (wired now) (m, w)).1
        ≡ ((in_app_strategy now new_id repo hub to_message).send (m, w)).1
  unfolding dispatch strategies_of
  dispatched-state now m w t =
      let found = ap (λ u. strategies_of u (wired now)) t in
      ap (λ ss. (require_strategies ss (m, w)).1) found
      ∙ single-state (in_app_strategy now new_id repo hub to_message) (m, w)

module _ {W : Type 0} (db : Database W) (notes : Cache W Notification) (pages : Cache W Page)
    (flags : Cache W Bool) (row : String → W → Option NotificationModel)
    (laws : CreateLaws db pages row) (hub : WsHubAdaptor W) (sender : EmailSender W)
    (to_message : Notification → InAppWsMessage) (new_id : Exec W String) where
  abbrev repo : NotificationRepository W
  repo = notification_repository db notes pages flags

  -- What is left when the service and the strategy are through.
  abbrev pub IsStored : String → String → String → String → W → Type 0
  IsStored id user_id subject body w =
      (m : NotificationModel) × (row id w ≡ some m)
      × (m.user_id ≡ user_id)
      × (m.subject ≡ subject)
      × (m.body ≡ body)

  -- Over a table whose primary key is the identifier, an in-app notification that the service creates
  -- with an identifier is never reported as created: either it could not be saved, and none is returned;
  -- or it is in the table in the end, and the call fails all the same, since the strategy saves it once
  -- more.
  pub create_and_queue-inapp_notification :
      (now : ℕ) (id user_id recipient subject body : String) (w : W)
      → id ≢ ""
      → let call =
          create_and_queue now new_id repo
            (dispatch (wired repo hub sender to_message new_id now))
            id
            user_id
            recipient
            subject
            body
            inapp_notification
            w in
        (call.0.1 ≢ ok tt) × ((call.0.0 ≡ none) ⊎ IsStored id user_id subject body call.1)
  unfolding create_and_queue stored queue notification_repository
  create_and_queue-inapp_notification now id user_id recipient subject body w ne =
      let n : Notification = record blank {
        id = id;
        user_id = user_id;
        type = inapp_notification;
        subject = subject;
        body = body;
        recipient = recipient;
        created_at = now;
      } in
      let w' = (save_notification db notes pages flags now n w).1 in
      elim (Result-cases (save_notification db notes pages flags now n w).0) [
        | inr (x, e) ↦ rw (e, queue) (λ h. cc, inl refl)
        | inl (m, e) ↦
            let (same, there) = save_notification-row db notes pages flags row laws now n m w e in
            let named : m.id ≡ id = ap (λ (x : Notification). x.id) same in
            let typed : m.type ≡ inapp_notification = ap (λ (x : Notification). x.type) same in
            let taken : (n' : Notification)
                → n'.id ≡ m.id
                → (x : Err) × ((save_notification db notes pages flags now n' w').0 ≡ err x)
                  × (row id (save_notification db notes pages flags now n' w').1 ≡ row id w') =
              λ n' q.
                save_notification_taken db notes pages flags row laws now n' _ w' id
                  (ap (λ i. row i w') (q ∙ named) ∙ there) in
            let named_too : m.id ≢ "" = λ z. ne (sym named ∙ z) in
            let ended = dispatched-state repo hub sender to_message new_id now m w' typed in
            rw (e, queue)
              (
                λ h.
                    strategy-fails repo hub sender to_message new_id now m w' named_too
                      (λ n' q. let (x, f, g) = taken n' q in (x, f))
                      (dispatched repo hub sender to_message new_id now m w' typed h),
                inr (
                  to_model (stamped now n),
                  ap (λ (p : Notification × W). row id p.1) ended
                      ∙ strategy-row repo hub sender to_message new_id row now m w' id named_too
                          taken
                      ∙ there,
                  refl,
                  refl,
                  refl,
                ),
              )
      ]
