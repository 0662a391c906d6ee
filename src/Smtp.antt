-- ===== src/Smtp.antt =====
-- internal/infrastructure/email/email_sender.go: the sender of mails, with its pool of SMTP connections
-- and its pool of messages. A connection is a number. net/smtp and the encoding of a message
-- (jordan-wright/email) are parameters that act on the world `W`. A `select` of `createClient`
-- takes what the world says, and the one of `sendWithTimeout` what a schedule says: in Smtp/Sender a send
-- that runs late is left where it is, and what it does later shows when the next attempt starts;
-- Smtp/Sender/Traffic is about any number of sends beside each other.
-- The recovery from a panic of the libraries is left out, as are the logs and the durations.
pub mod Pool
pub mod Sender
use Prim.Native.String
use edu_learn_notification_s.Prelude.{
  ℕ, zero, suc, ◌+◌, Bool, true, false, not, String, List, [], ◌∷◌, ◌++◌, Option, none, some,
  length, ltb, eqb, ◌==◌, if◌then◌else◌,
}
use edu_learn_notification_s.Errors.{Err, Result, ok, err, new, wrap, with_context}
use edu_learn_notification_s.Effect.{Exec}
use edu_learn_notification_s.Notification.{Notification, email_notification}
use edu_learn_notification_s.Ports.{RateLimiter}

-- What a call gives: a result, or a panic.
pub data Run (A : Type 0) : Type 0 where
  returns : A → Run A
  panics : Run A

pub record EmailConfig : Type 0 where
  pub username : String
  pub from_name : String
  pub pool_size : ℕ
  pub max_retries : ℕ

-- func DefaultEmailConfig, the fields that the sender reads
abbrev pub default_email_config : String → EmailConfig
default_email_config username = record {
  username = username;
  from_name = "EduLearn";
  pool_size = 10;
  max_retries = 3;
}

-- The fields of email.Email that the sender writes or resets.
pub record Email : Type 0 where
  pub from : String
  pub to : List String
  pub cc : List String
  pub bcc : List String
  pub subject : String
  pub text : String
  pub html : String
  pub attachments : List String
  pub headers : List (String × String)

-- email.NewEmail()
abbrev pub new_email : Email
new_email = record {
  from = "";
  to = [];
  cc = [];
  bcc = [];
  subject = "";
  text = "";
  html = "";
  attachments = [];
  headers = [];
}

-- What a select on a dial takes: the end of the context, the error of the dial, or the connection.
pub data Dialled : Type 0 where
  cancelled : Dialled
  failed : Err → Dialled
  connected : ℕ → Dialled

-- net/smtp and net.Dialer, as the sender uses them.
pub record NetSmtp (W : Type 0) : Type 0 where
  pub dial : W → Dialled × W
  pub new_client : ℕ → Exec W (Unit {0})
  pub extension : String → ℕ → W → Bool × W
  pub start_tls : ℕ → Exec W (Unit {0})
  pub auth : ℕ → Exec W (Unit {0})
  pub noop : ℕ → Exec W (Unit {0})
  pub reset : ℕ → Exec W (Unit {0})
  pub mail : String → ℕ → Exec W (Unit {0})
  pub rcpt : String → ℕ → Exec W (Unit {0})
  pub data_command : ℕ → Exec W (Unit {0})
  pub write : String → ℕ → Exec W (Unit {0})
  pub close_writer : ℕ → Exec W (Unit {0})
  pub close : ℕ → W → W

-- The sender: the idle connections oldest first, whether the channel of the pool is closed, the
-- messages for another use, and the world.
pub record State (W : Type 0) : Type 0 where
  pub conns : List ℕ
  pub closed : Bool
  pub emails : List Email
  pub world : W

abbrev pub M : Type 0 → Type 0 → Type 0
M W A = State W → Run (Result A × State W)

module _ {W A B : Type 0} where
  -- What follows runs on the result, whether it is an error or not.
  abbrev pub then_run : Run (Result A × State W) → (Result A → M W B) → Run (Result B × State W)
  then_run (returns (r, s)) f = f r s
  then_run panics f = panics

  abbrev pub on_ok : (A → M W B) → Result A → M W B
  on_ok f (ok a) s = f a s
  on_ok f (err e) s = returns (err e, s)

  infixl 5 ◌>>=◌ ◌>>◌
  abbrev pub ◌>>=◌ : M W A → (A → M W B) → M W B
  ◌>>=◌ m f s = then_run (m s) (on_ok f)

  abbrev pub ◌>>◌ : M W A → M W B → M W B
  m >> n = m >>= λ _. n

-- A call of a library, and its error with a text before it.
abbrev pub call : {W A : Type 0} → Exec W A → M W A
call m s = let (r, w) = m s.world in returns (r, record s { world = w })

abbrev pub annotate : {W A : Type 0} → String → Run (Result A × State W) → Run (Result A × State W)
annotate text (returns (r, s)) = returns (with_context text r, s)
annotate text panics = panics

abbrev pub context : {W A : Type 0} → String → M W A → M W A
context text m s = annotate text (m s)

abbrev pub is_ok : Result (Unit {0}) → Bool
is_ok (ok u) = true
is_ok (err e) = false

-- `if err := m(); err != nil { return … }` with the error dropped: whether the call failed
abbrev pub succeeds : {W : Type 0} → Exec W (Unit {0}) → M W Bool
succeeds m s = let (r, w) = m s.world in returns (ok (is_ok r), record s { world = w })
