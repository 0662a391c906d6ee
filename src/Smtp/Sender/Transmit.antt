-- ===== src/Smtp/Sender/Transmit.antt =====
-- One mail on one connection, and the messages for another use: what they keep of the sender.
use edu_learn_notification_s.Prelude.{ℕ, Bool, ◌≡◌, refl, String, List, [], ◌∷◌, All}
use edu_learn_notification_s.Errors.{Result, ok, err}
use edu_learn_notification_s.Smtp.{
  Run, returns, panics, EmailConfig, Email, new_email, NetSmtp, State, M, then_run, on_ok, call,
  context, annotate,
}
use edu_learn_notification_s.Smtp.Pool.Opened.{Ends, NetLaws, Tidy, world-Tidy}
use edu_learn_notification_s.Smtp.Sender.{rcpt_each, write_message, send_via_smtp, take_email}

module _ {W : Type 0} {net : NetSmtp W} {in_use : W → ℕ → Bool} (laws : NetLaws net in_use)
    (bytes : Email → Result String) (config : EmailConfig) where
  -- The sender is in order after a step, on an error too.
  abbrev pub Kept : {A : Type 0} → (ℕ → Bool) → Result A × State W → Type 0
  Kept held r = Tidy in_use config held r.1

  pub bind-Kept :
      {A B : Type 0} (held : ℕ → Bool) (r : Run (Result A × State W)) (f : A → M W B)
      → Ends (Kept held) r
      → ((a : A) (s : State W) → Tidy in_use config held s → Ends (Kept held) (f a s))
      → Ends (Kept held) (then_run r (on_ok f))
  bind-Kept held (returns (ok a, s)) f p k = k a s p
  bind-Kept held (returns (err e, s)) f p k = p
  bind-Kept held panics f p k = elim p [ ]

  pub after-Kept :
      {A B : Type 0} (held held' : ℕ → Bool) (r : Run (Result A × State W)) (f : Result A → M W B)
      → Ends (Kept held) r
      → ((a : Result A) (s : State W) → Tidy in_use config held s → Ends (Kept held') (f a s))
      → Ends (Kept held') (then_run r f)
  after-Kept held held' (returns (a, s)) f p k = k a s p
  after-Kept held held' panics f p k = elim p [ ]

  pub annotate-Kept :
      {A : Type 0} (held : ℕ → Bool) (text : String) (r : Run (Result A × State W))
      → Ends (Kept held) r
      → Ends (Kept held) (annotate text r)
  annotate-Kept held text (returns (a, s)) p = p
  annotate-Kept held text panics p = elim p [ ]

  rcpt_each-Kept :
      (held : ℕ → Bool) (c : ℕ) (addrs : List String) (s : State W)
      → Tidy in_use config held s
      → Ends (Kept held) (rcpt_each net bytes config addrs c s)
  unfolding rcpt_each
  rcpt_each-Kept held c [] s t = t
  rcpt_each-Kept held c (addr ∷ addrs) s t =
      bind-Kept held (context "RCPT command failed" (call (net.rcpt addr c)) s) _
        (world-Tidy laws config held _ s (laws.rcpt_keeps addr c s.world) t)
        (λ u s' t'. rcpt_each-Kept held c addrs s' t')

  write_message-Kept :
      (held : ℕ → Bool) (c : ℕ) (msg : Email) (s : State W)
      → Tidy in_use config held s
      → Ends (Kept held) (write_message net bytes config msg c s)
  unfolding write_message
  write_message-Kept held c msg s t =
      after-Kept held held _ _
        (bind-Kept held (context "failed to generate email bytes" (call (λ w. (bytes msg, w))) s) _
          (world-Tidy laws config held s.world s (λ d. refl) t)
          (λ text s' t'. world-Tidy laws config held _ s' (laws.write_keeps text c s'.world) t'))
        (λ r s' t'. world-Tidy laws config held _ s' (laws.close_writer_keeps c s'.world) t')

  pub send_via_smtp-Kept :
      (held : ℕ → Bool) (c : ℕ) (msg : Email) (s : State W)
      → Tidy in_use config held s
      → Ends (Kept held) (send_via_smtp net bytes config msg c s)
  unfolding send_via_smtp
  send_via_smtp-Kept held c msg s t =
      bind-Kept held (context "MAIL command failed" (call (net.mail config.username c)) s) _
        (world-Tidy laws config held _ s (laws.mail_keeps config.username c s.world) t)
        (λ u s' t'.
          bind-Kept held (rcpt_each net bytes config msg.to c s') _
            (rcpt_each-Kept held c msg.to s' t')
            (λ u s' t'.
              bind-Kept held (context "DATA command failed" (call (net.data_command c)) s') _
                (world-Tidy laws config held _ s' (laws.data_command_keeps c s'.world) t')
                (λ u s' t'. write_message-Kept held c msg s' t')))

  pub emails-Tidy :
      (held : ℕ → Bool) (es : List Email) (s : State W)
      → All (λ e. e ≡ new_email) es
      → Tidy in_use config held s
      → Tidy in_use config held (record s { emails = es })
  emails-Tidy held es s clean t = record {
    running = t.running;
    distinct = t.distinct;
    exact = t.exact;
    apart = t.apart;
    fits = t.fits;
    clean = clean;
  }

  pub rest-clean :
      (es : List Email)
      → All (λ e. e ≡ new_email) es
      → All (λ e. e ≡ new_email) (take_email net bytes config es).1
  unfolding take_email
  rest-clean [] h = h
  rest-clean (e ∷ es) h = h.1
