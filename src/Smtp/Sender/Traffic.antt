-- ===== src/Smtp/Sender/Traffic.antt =====
-- Any number of calls of sendEmail beside each other, those too that sendWithTimeout has given up and left
-- running: the steps of their goroutines, in any order, over the pools that they share.
use edu_learn_notification_s.Prelude.{
  ℕ, Bool, true, false, ◌≡◌, ◌≢◌, refl, List, [], ◌∷◌, eqb, eqb_iff, arith, subst, Bool-cases, inl,
  inr, String,
}
use edu_learn_notification_s.Errors.{Err, Result, ok, err}
use edu_learn_notification_s.Hub.Groups.{contains, remove, contains-remove}
use edu_learn_notification_s.Smtp.{Run, returns, panics, EmailConfig, Email, NetSmtp, State}
use edu_learn_notification_s.Smtp.Pool.{new_smtp_pool, take_idle, create_client, get, give_back}
use edu_learn_notification_s.Smtp.Pool.Opened.{
  Ends, NetLaws, lease, Tidy, Leased, create_client-Leased,
}
use edu_learn_notification_s.Smtp.Pool.Keeps.{
  get-Leased, give_back-Tidy, take_idle-Leased, popped-Tidy,
}
use edu_learn_notification_s.Smtp.Sender.{send_via_smtp, take_email, return_email, reset_email}
use edu_learn_notification_s.Smtp.Sender.Transmit.{send_via_smtp-Kept, emails-Tidy, rest-clean}

-- The shared pools, and the connections that the running sends hold.
pub record Sends (W : Type 0) : Type 0 where
  pub held : List ℕ
  pub sender : State W

module _ {W : Type 0} (net : NetSmtp W) (bytes : Email → Result String) (config : EmailConfig) where
  -- One step of one of the sends. The select of Get takes an idle connection, which is asked whether it is
  -- alive and replaced if not, or finds none and makes one; the mail is sent on the connection; the
  -- connection is given back; a message is taken for use, and left for another.
  pub data Step : Sends W → Sends W → Type 0 where
    pop :
        {p : Sends W} (c : ℕ) (cs : List ℕ)
        → p.sender.conns ≡ c ∷ cs
        → Step p (record { held = c ∷ p.held; sender = record p.sender { conns = cs } })
    taken :
        {p : Sends W} (c d : ℕ) (s : State W)
        → contains c p.held ≡ true
        → take_idle net c p.sender ≡ returns (ok d, s)
        → Step p (record { held = d ∷ remove c p.held; sender = s })
    not_taken :
        {p : Sends W} (c : ℕ) (e : Err) (s : State W)
        → contains c p.held ≡ true
        → take_idle net c p.sender ≡ returns (err e, s)
        → Step p (record { held = remove c p.held; sender = s })
    created :
        {p : Sends W} (d : ℕ) (s : State W)
        → create_client net p.sender ≡ returns (ok d, s)
        → Step p (record { held = d ∷ p.held; sender = s })
    not_created :
        {p : Sends W} (e : Err) (s : State W)
        → create_client net p.sender ≡ returns (err e, s)
        → Step p (record { held = p.held; sender = s })
    transmitted :
        {p : Sends W} (c : ℕ) (msg : Email) (r : Result (Unit {0})) (s : State W)
        → contains c p.held ≡ true
        → send_via_smtp net bytes config msg c p.sender ≡ returns (r, s)
        → Step p (record { held = p.held; sender = s })
    given_back :
        {p : Sends W} (c : ℕ) (r : Result (Unit {0})) (s : State W)
        → contains c p.held ≡ true
        → give_back net config c p.sender ≡ returns (r, s)
        → Step p (record { held = remove c p.held; sender = s })
    message_taken :
        {p : Sends W}
        → Step p (record p {
          sender = record p.sender { emails = (take_email net bytes config p.sender.emails).1 };
        })
    message_returned :
        {p : Sends W} (msg : Email)
        → Step p (record p { sender = return_email net bytes config msg p.sender })

  pub data Steps : Sends W → Sends W → Type 0 where
    none_yet : {p : Sends W} → Steps p p
    then_step : {p q r : Sends W} → Steps p q → Step q r → Steps p r

module _ {W : Type 0} {net : NetSmtp W} {in_use : W → ℕ → Bool} (laws : NetLaws net in_use)
    (bytes : Email → Result String) (config : EmailConfig) where
  abbrev pub TidySends : Sends W → Type 0
  TidySends p = Tidy in_use config (λ d. contains d p.held) p.sender

  reheld-Tidy :
      (h h' : ℕ → Bool) (s : State W)
      → ((d : ℕ) → h d ≡ h' d)
      → Tidy in_use config h s
      → Tidy in_use config h' s
  reheld-Tidy h h' s same t = record {
    running = t.running;
    distinct = t.distinct;
    exact = λ d. ground (arith, same d, t.exact d);
    apart = λ d m. ground (arith, same d, t.apart d m);
    fits = t.fits;
    clean = t.clean;
  }

  -- One of the held connections, apart from the others.
  others : ℕ → List ℕ → ℕ → Bool
  others c held d = contains d (remove c held)

  others_free : (c : ℕ) (held : List ℕ) → others c held c ≡ false
  unfolding others
  others_free c held = ground (arith, contains-remove c c held, eqb_iff c c)

  apart-Tidy :
      (c : ℕ) (p : Sends W)
      → contains c p.held ≡ true
      → TidySends p
      → Tidy in_use config (lease c (others c p.held)) p.sender
  unfolding others
  apart-Tidy c p m t =
      reheld-Tidy (λ d. contains d p.held) (lease c (others c p.held)) p.sender
        (λ d. ground (arith, contains-remove c d p.held, eqb_iff c d, m)) t

  ended : {A : Type 0} (P : A → Type 0) (r : Run A) (a : A) → r ≡ returns a → Ends P r → P a
  ended P r a e h = subst (Ends P) e h

  Step-TidySends : (p q : Sends W) → Step net bytes config p q → TidySends p → TidySends q
  unfolding others return_email reset_email
  Step-TidySends p q (pop c cs e) t =
      (popped-Tidy laws config (λ d. contains d p.held) c cs p.sender e t).1
  Step-TidySends p q (taken c d s m e) t =
      (ended (Leased laws config (others c p.held)) _ (ok d, s) e
        (take_idle-Leased laws config (others c p.held) c p.sender (others_free c p.held)
          (apart-Tidy c p m t))).1
  Step-TidySends p q (not_taken c x s m e) t =
      ended (Leased laws config (others c p.held)) _ (err x, s) e
        (take_idle-Leased laws config (others c p.held) c p.sender (others_free c p.held)
          (apart-Tidy c p m t))
  Step-TidySends p q (created d s e) t =
      (ended (Leased laws config (λ d. contains d p.held)) _ (ok d, s) e
        (create_client-Leased laws config (λ d. contains d p.held) p.sender t)).1
  Step-TidySends p q (not_created x s e) t =
      ended (Leased laws config (λ d. contains d p.held)) _ (err x, s) e
        (create_client-Leased laws config (λ d. contains d p.held) p.sender t)
  Step-TidySends p q (transmitted c msg r s m e) t =
      ended (λ x. Tidy in_use config (λ d. contains d p.held) x.1) _ (r, s) e
        (send_via_smtp-Kept laws bytes config (λ d. contains d p.held) c msg p.sender t)
  Step-TidySends p q (given_back c r s m e) t =
      ended (λ x. Tidy in_use config (others c p.held) x.1) _ (r, s) e
        (give_back-Tidy laws config (others c p.held) c p.sender (others_free c p.held)
          (apart-Tidy c p m t))
  Step-TidySends p q message_taken t =
      emails-Tidy laws bytes config (λ d. contains d p.held) _ p.sender
        (rest-clean laws bytes config p.sender.emails t.clean) t
  Step-TidySends p q (message_returned msg) t =
      emails-Tidy laws bytes config (λ d. contains d p.held) _ p.sender (refl, t.clean) t

  pub Steps-keep : (p q : Sends W) → Steps net bytes config p q → TidySends p → TidySends q
  Steps-keep p q none_yet t = t
  Steps-keep p q (then_step a b) t = Step-TidySends _ q b (Steps-keep p _ a t)

  new_pool-Tidy :
      (w : W) (s : State W)
      → ((d : ℕ) → in_use w d ≡ false)
      → new_smtp_pool config w ≡ ok s
      → Tidy in_use config (λ d. false) s
  unfolding new_smtp_pool
  new_pool-Tidy w s none_open e = elim (Bool-cases (eqb config.pool_size 0)) [
    | inl zero_size ↦ absurd (ground arith)
    | inr some_size ↦
        let same : record { conns = []; closed = false; emails = []; world = w } ≡ s =
          ground arith in
        subst (Tidy in_use config (λ d. false)) same (record {
          running = refl;
          distinct = tt;
          exact = none_open;
          apart = λ d m. refl;
          fits = omega arith;
          clean = tt;
        })
  ]

  not_panicking : {A : Type 0} (P : A → Type 0) (r : Run A) → Ends P r → r ≢ panics
  not_panicking P r h e = subst (Ends P) e h

  -- From a new pool on, in every interleaving of the steps of any number of sends, late ones too, while the
  -- pool is not closed: each connection in use, that is, open and not left behind by a cancelled dial, is
  -- idle in the pool, once, or held by a running send, and not both; the pool is not over its size; the
  -- messages for another use are blank; and no Get and no end of a send panics.
  pub Steps-TidySends :
      (w : W) (s : State W) (q : Sends W)
      → ((d : ℕ) → in_use w d ≡ false)
      → new_smtp_pool config w ≡ ok s
      → Steps net bytes config (record { held = []; sender = s }) q
      → TidySends q
        × (get net q.sender ≢ panics)
        × ((c : ℕ) → contains c q.held ≡ true → give_back net config c q.sender ≢ panics)
  unfolding others
  Steps-TidySends w s q none_open new steps =
      let t = Steps-keep _ q steps (new_pool-Tidy w s none_open new) in
      (
        t,
        not_panicking _ _ (get-Leased laws config (λ d. contains d q.held) q.sender t),
        λ c m. not_panicking _ _ (
            give_back-Tidy laws config (others c q.held) c q.sender (others_free c q.held)
              (apart-Tidy c q m t)),
      )
