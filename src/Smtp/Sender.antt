-- ===== src/Smtp/Sender.antt =====
-- The messages of email_sender.go, and the sending of one: EmailSender.
pub mod Transmit
pub mod Keeps
pub mod Retry
pub mod Traffic
use Prim.Native.String
use edu_learn_notification_s.Prelude.{
  ℕ, zero, suc, ◌+◌, Bool, true, false, not, String, List, [], ◌∷◌, ◌++◌, Option, none, some,
  length, ltb, eqb, ◌==◌, if◌then◌else◌,
}
use edu_learn_notification_s.Errors.{Err, Result, ok, err, new, wrap, with_context}
use edu_learn_notification_s.Effect.{Exec}
use edu_learn_notification_s.Notification.{Notification, email_notification}
use edu_learn_notification_s.Ports.{RateLimiter}
use edu_learn_notification_s.Smtp.Pool.{get, give_back}
use edu_learn_notification_s.Smtp.{
  Run, returns, panics, EmailConfig, Email, new_email, Dialled, cancelled, failed, connected,
  NetSmtp, State, M, then_run, ◌>>=◌, ◌>>◌, call, context, succeeds,
}

-- Headers.Set: the name is put in its canonical form, and an older value is replaced.
set_header : String → String → List (String × String) → List (String × String)
set_header name value [] = (name, value) ∷ []
set_header name value ((n, v) ∷ rest) =
    if n == name then (name, value) ∷ rest else (n, v) ∷ set_header name value rest

-- What sendEmail writes to the message that it has taken from its pool.
pub fill_email : EmailConfig → Notification → Email → Email
unfolding set_header
fill_email config n e = record e {
  from = String.◌++◌ (String.◌++◌ (String.◌++◌ config.from_name " <") config.username) ">";
  to = n.recipient ∷ [];
  subject = n.subject;
  html = n.body;
  headers = set_header "X-User-Id" n.user_id (set_header "X-Notification-Id" n.user_id e.headers);
}

-- What resetAndReturnEmail leaves of a message.
pub reset_email : Email → Email
reset_email e = record e {
  from = "";
  to = [];
  cc = [];
  bcc = [];
  subject = "";
  text = "";
  html = "";
  attachments = [];
  headers = [];
}

-- What the other goroutines have done to the shared pools when an attempt starts, the sends among them
-- that were late before; and whether the time of the attempt is up before it ends, with the pools at
-- that moment.
pub record Schedule (W : Type 0) : Type 0 where
  pub meanwhile : State W → State W
  pub late : Notification → State W → Option (State W)

module _ {W : Type 0} (net : NetSmtp W) (bytes : Email → Result String) (config : EmailConfig) where
  -- for _, addr := range msg.To
  rcpt_each : List String → ℕ → M W (Unit {0})
  rcpt_each [] c s = returns (ok tt, s)
  rcpt_each (addr ∷ addrs) c s =
      (context "RCPT command failed" (call (net.rcpt addr c)) >> rcpt_each addrs c) s

  -- The message is encoded and written; the writer is closed at the end, and its answer is dropped.
  write_message : Email → ℕ → M W (Unit {0})
  write_message msg c s =
      then_run
        ((context "failed to generate email bytes" (call (λ w. (bytes msg, w))) >>= λ text.
            context "failed to write email data" (call (net.write text c)))
          s)
        λ r s'. returns (r, record s' { world = (net.close_writer c s'.world).1 })

  -- func (s *EmailSender) sendViaSMTP(client *smtp.Client, msg *email.Email) error
  unfoldable pub send_via_smtp : Email → ℕ → M W (Unit {0})
  unfolding rcpt_each write_message
  send_via_smtp msg c = do
    context "MAIL command failed" (call (net.mail config.username c))
    rcpt_each msg.to c
    context "DATA command failed" (call (net.data_command c))
    write_message msg c

  -- The part of sendEmail that holds a connection; the connection is given back on an error too.
  send_on : Email → ℕ → M W (Unit {0})
  unfolding send_via_smtp
  send_on msg c s =
      then_run (context "failed to send via SMTP" (send_via_smtp msg c) s)
        λ r s'. then_run (give_back net config c s') λ _ s''. returns (r, s'')

  -- s.emailPool.Get()
  pub take_email : List Email → Email × List Email
  take_email [] = (new_email, [])
  take_email (e ∷ es) = (e, es)

  pub return_email : Email → State W → State W
  unfolding reset_email
  return_email msg s = record s { emails = reset_email msg ∷ s.emails }

  -- func (s *EmailSender) sendEmail(ctx context.Context, notification ports.NotificationLike) error
  pub send_email : Notification → M W (Unit {0})
  unfolding take_email return_email send_on fill_email
  send_email n s =
      let (e, es) = take_email s.emails in
      let msg = fill_email config n e in
      then_run
        ((context "failed to get SMTP client" (get net) >>= send_on msg) (record s { emails = es }))
        λ r s'. returns (r, return_email msg s')

  -- func (s *EmailSender) sendWithTimeout. A send whose time is up is left where it is.
  pub send_with_timeout : Schedule W → Notification → M W (Unit {0})
  unfolding send_email
  send_with_timeout schedule n s =
      let start = schedule.meanwhile s in
      elim (schedule.late n start) [
        | some now ↦ returns (err (wrap "send timeout" (new "context deadline exceeded")), now)
        | none ↦ send_email n start
      ]

pub record EmailMetrics : Type 0 where
  pub email_sent_total : ℕ
  pub email_send_errors : ℕ
  pub email_retries : ℕ
  pub email_rate_limited : ℕ

-- `fmt.Errorf("failed after %d attempts: %w", …, lastErr)`; with no attempt the error is nil.
failed_after : Option Err → Err
failed_after none = new "failed after 0 attempts: %!w(<nil>)"
failed_after (some e) = wrap "failed after attempts" e

-- The loop of Send with `n` attempts left, over the state of one attempt: the result, the metrics.
module _ {S : Type 0} (once : S → Run (Result (Unit {0}) × S)) where
  pub retry : ℕ → Option Err → EmailMetrics → S → Run (Result (Unit {0}) × EmailMetrics × S)
  unfolding failed_after
  retry zero last m s =
      returns (err (failed_after last), record m { email_send_errors = m.email_send_errors + 1 }, s)
  retry (suc n) last m s = elim (once s) [
    | panics ↦ panics
    | returns (ok u, s') ↦
        returns (ok tt, record m { email_sent_total = m.email_sent_total + 1 }, s')
    | returns (err e, s') ↦ retry n (some e) (record m { email_retries = m.email_retries + 1 }) s'
  ]

module _ {W : Type 0} (net : NetSmtp W) (bytes : Email → Result String) (config : EmailConfig)
    (limiter : RateLimiter W) (schedule : Schedule W) where
  -- After the rate limiter: the kind of the notification is checked, and the attempts start.
  allowed :
      Notification
      → Result (Unit {0})
      → EmailMetrics
      → State W
      → Run (Result (Unit {0}) × EmailMetrics × State W)
  allowed n (err e) m s = returns (
    err (wrap "rate limit exceeded" e),
    record m { email_rate_limited = m.email_rate_limited + 1 },
    s,
  )
  allowed n (ok u) m s =
      if n.type == email_notification
      then retry (send_with_timeout net bytes config schedule n) config.max_retries none m s
      else returns (err (new "invalid notification type"), m, s)

  -- func (s *EmailSender) Send(ctx context.Context, notification ports.NotificationLike) error
  pub send :
      ℕ → Notification → EmailMetrics → State W → Run (Result (Unit {0}) × EmailMetrics × State W)
  unfolding allowed
  send now n m s =
      let (r, w) = limiter.allow now n.recipient s.world in allowed n r m (record s { world = w })
