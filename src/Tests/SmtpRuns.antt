-- ===== src/Tests/SmtpRuns.antt =====
-- A mail server that answers every command, and a sender with one idle connection.
use edu_learn_notification_s.Prelude.{
  ℕ, ◌+◌, Bool, true, false, not, ◌&&◌, ◌≡◌, refl, String, List, [], ◌∷◌, ltb, eqb_iff, arith, ◌≢◌,
  none,
}
use edu_learn_notification_s.Errors.{Result, ok}
use edu_learn_notification_s.Effect.{Exec}
use edu_learn_notification_s.Notification.{Notification, blank, email_notification}
use edu_learn_notification_s.Ports.{RateLimiter}
use edu_learn_notification_s.Hub.Groups.{contains, remove, contains-remove}
use edu_learn_notification_s.Smtp.{
  EmailConfig, Email, new_email, connected, returns, panics, NetSmtp, State, default_email_config,
}
use edu_learn_notification_s.Smtp.Pool.{get, close_pool, create_client, give_back, new_smtp_pool}
use edu_learn_notification_s.Smtp.Pool.Shut.{close_pool-panics}
use edu_learn_notification_s.Smtp.Pool.Opened.{NetLaws, Tidy}
use edu_learn_notification_s.Smtp.Sender.{EmailMetrics, Schedule, send_via_smtp}
use edu_learn_notification_s.Smtp.Sender.Traffic.{
  Sends, Steps, none_yet, then_step, created, transmitted, given_back, TidySends, Steps-TidySends,
}

record Lines : Type 0 where
  next : ℕ
  shut : List ℕ

abbrev in_use : Lines → ℕ → Bool
in_use w c = ltb c w.next && not (contains c w.shut)

abbrev fine : Exec Lines (Unit {0})
fine w = (ok tt, w)

abbrev server : NetSmtp Lines
server = record {
  dial = λ w. (connected w.next, record { next = w.next + 1; shut = remove w.next w.shut });
  new_client = λ c. fine;
  extension = λ s c w. (true, w);
  start_tls = λ c. fine;
  auth = λ c. fine;
  noop = λ c. fine;
  reset = λ c. fine;
  mail = λ s c. fine;
  rcpt = λ s c. fine;
  data_command = λ c. fine;
  write = λ s c. fine;
  close_writer = λ c. fine;
  close = λ c w. record w { shut = c ∷ w.shut };
}

server-laws : NetLaws server in_use
server-laws = record {
  dials =
      λ w. (ground arith, λ d. ground (arith, contains-remove w.next d w.shut, eqb_iff w.next d));
  new_client_may_close = λ c w d. refl;
  start_tls_may_close = λ c w d. refl;
  auth_may_close = λ c w d. refl;
  extension_keeps = λ s c w d. refl;
  noop_keeps = λ c w d. refl;
  reset_keeps = λ c w d. refl;
  mail_keeps = λ s c w d. refl;
  rcpt_keeps = λ s c w d. refl;
  data_command_keeps = λ c w d. refl;
  write_keeps = λ s c w d. refl;
  close_writer_keeps = λ c w d. refl;
  close_closes = λ c d w. ground arith;
}

abbrev config : EmailConfig
config = default_email_config "svc@x.io"

abbrev bytes : Email → Result String
bytes e = ok e.html

abbrev limiter : RateLimiter Lines
limiter = record { allow = λ now key. fine }

-- Connection 0 is idle in the pool, connection 1 is held by another sender.
abbrev idle : State Lines
idle = record {
  conns = 0 ∷ [];
  closed = false;
  emails = [];
  world = record { next = 2; shut = [] };
}

idle-Tidy : Tidy in_use config (λ d. contains d (1 ∷ [])) idle
idle-Tidy = record {
  running = refl;
  distinct = (refl, tt);
  exact = λ d. ground arith;
  apart = λ d m. ground arith;
  fits = omega arith;
  clean = tt;
}

-- No other send steps, and none is late.
abbrev alone : Schedule Lines
alone = record { meanwhile = λ s. s; late = λ n s. none }

abbrev letter : Notification
letter = record blank { type = email_notification; recipient = "ann@x.io"; body = "Hello" }

abbrev counts : EmailMetrics
counts = record {
  email_sent_total = 0;
  email_send_errors = 0;
  email_retries = 0;
  email_rate_limited = 0;
}

-- A send that makes a connection, sends on it and gives it back, from a new pool on.
abbrev blank_lines : Lines
blank_lines = record { next = 0; shut = [] }

abbrev empty_pool : State Lines
empty_pool = record { conns = []; closed = false; emails = []; world = blank_lines }

abbrev one_line : State Lines
one_line = record empty_pool { world = record { next = 1; shut = [] } }

abbrev before_send : Sends Lines
before_send = record { held = []; sender = empty_pool }

abbrev during_send : Sends Lines
during_send = record { held = 0 ∷ []; sender = one_line }

abbrev after_send : Sends Lines
after_send = record { held = []; sender = record one_line { conns = 0 ∷ [] } }

a_send : Steps server bytes config before_send after_send
unfolding create_client send_via_smtp give_back remove
a_send =
    then_step
      (then_step (then_step none_yet (created {p = before_send} 0 one_line refl))
        (transmitted {p = during_send} 0 new_email (ok tt) one_line refl refl))
      (given_back {p = during_send} 0 (ok tt) (record one_line { conns = 0 ∷ [] }) refl refl)

new_pool : new_smtp_pool config blank_lines ≡ ok empty_pool
unfolding new_smtp_pool
new_pool = refl

Steps-TidySends_example :
    TidySends server-laws bytes config after_send
    × (get server after_send.sender ≢ panics)
    × ((c : ℕ)
        → contains c after_send.held ≡ true
        → give_back server config c after_send.sender ≢ panics)
Steps-TidySends_example =
    Steps-TidySends server-laws bytes config blank_lines empty_pool after_send (λ d. ground arith)
      new_pool a_send

close_pool-panics_example :
    (s' : State Lines) × (close_pool server idle ≡ returns (ok tt, s'))
    × ((d : ℕ) → in_use s'.world d ≡ contains d (1 ∷ []))
    × (get server s' ≡ panics)
    × (close_pool server s' ≡ panics)
close_pool-panics_example =
    close_pool-panics server-laws config (λ d. contains d (1 ∷ [])) idle idle-Tidy
