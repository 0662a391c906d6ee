-- ===== src/Smtp/Pool.antt =====
-- The pool of connections of email_sender.go: smtpPool.
pub mod Opened
pub mod Keeps
pub mod Shut
use Prim.Native.String
use edu_learn_notification_s.Prelude.{
  ℕ, zero, suc, ◌+◌, Bool, true, false, not, String, List, [], ◌∷◌, ◌++◌, Option, none, some,
  length, ltb, eqb, ◌==◌, if◌then◌else◌,
}
use edu_learn_notification_s.Errors.{Err, Result, ok, err, new, wrap, with_context}
use edu_learn_notification_s.Effect.{Exec}
use edu_learn_notification_s.Notification.{Notification, email_notification}
use edu_learn_notification_s.Ports.{RateLimiter}
use edu_learn_notification_s.Smtp.{
  Run, returns, panics, EmailConfig, Email, new_email, Dialled, cancelled, failed, connected,
  NetSmtp, State, M, then_run, ◌>>=◌, ◌>>◌, call, context, succeeds,
}

-- func newSMTPPool(config EmailConfig), with no message for another use yet
unfoldable pub new_smtp_pool : {W : Type 0} → EmailConfig → W → Result (State W)
new_smtp_pool config w =
    if eqb config.pool_size 0
    then err (new "PoolSize must be greater than 0")
    else ok (record { conns = []; closed = false; emails = []; world = w })

module _ {W : Type 0} (net : NetSmtp W) where
  close_client : ℕ → M W (Unit {0})
  close_client c s = returns (ok tt, record s { world = net.close c s.world })

  -- An error of a step of createClient: the connection is closed.
  closed_on : ℕ → String → Result (Unit {0}) → M W (Unit {0})
  closed_on c text (ok u) s = returns (ok tt, s)
  closed_on c text (err e) s = returns (err (wrap text e), record s { world = net.close c s.world })

  closing : ℕ → String → Exec W (Unit {0}) → M W (Unit {0})
  unfolding closed_on
  closing c text m s = then_run (call m s) (closed_on c text)

  -- `if ok, _ := client.Extension(name); ok { … }`
  if_offered : String → ℕ → M W (Unit {0}) → M W (Unit {0})
  if_offered name c m s =
      let (offered, w) = net.extension name c s.world in
      if offered then m (record s { world = w }) else returns (ok tt, record s { world = w })

  open_client : Dialled → M W ℕ
  unfolding closing if_offered
  open_client cancelled s = returns (err (new "context deadline exceeded"), s)
  open_client (failed e) s = returns (err (wrap "dial failed" e), s)
  open_client (connected c) s =
      (closing c "smtp.NewClient failed" (net.new_client c)
          >> if_offered "STARTTLS" c (closing c "STARTTLS failed" (net.start_tls c))
          >> if_offered "AUTH" c (closing c "authentication failed" (net.auth c))
          >> λ s'. returns (ok c, s'))
        s

  -- func (p *smtpPool) createClient(ctx context.Context) (*smtp.Client, error). What a cancelled dial has
  -- opened, or opens later, stays in its channel: the connection is open and nobody has it.
  unfoldable pub create_client : M W ℕ
  unfolding open_client
  create_client s = let (d, w) = net.dial s.world in open_client d (record s { world = w })

  -- What Get does with the connection that it has taken from the channel.
  pub take_idle : ℕ → M W ℕ
  unfolding create_client close_client
  take_idle c = do
    alive ← succeeds (net.noop c)
    if alive then (λ s. returns (ok c, s)) else (close_client c >> create_client)

  -- A closed channel gives nil, and the call of its Noop panics.
  get_idle : List ℕ → M W ℕ
  unfolding take_idle create_client
  get_idle [] s = if s.closed then panics else create_client s
  get_idle (c ∷ cs) s = take_idle c (record s { conns = cs })

  -- func (p *smtpPool) Get(ctx context.Context) (*smtp.Client, error)
  pub get : M W ℕ
  unfolding get_idle
  get s = get_idle s.conns s

  module _ (config : EmailConfig) where
    -- The select of Put: the send on a closed channel panics.
    put_back : ℕ → M W (Unit {0})
    unfolding close_client
    put_back c s =
        if s.closed
        then panics
        else if ltb (length s.conns) config.pool_size
        then returns (ok tt, record s { conns = s.conns ++ c ∷ [] })
        else close_client c s

    -- func (p *smtpPool) Put(client *smtp.Client)
    pub put : ℕ → M W (Unit {0})
    unfolding put_back close_client
    put c = do alive ← succeeds (net.noop c); if alive then put_back c else close_client c

    -- The deferred end of sendEmail: a connection that cannot be reset is closed.
    unfoldable pub give_back : ℕ → M W (Unit {0})
    unfolding put close_client
    give_back c = do clean ← succeeds (net.reset c); if clean then put c else close_client c

  -- for client := range p.conns { client.Close() }
  close_each : List ℕ → W → W
  close_each [] w = w
  close_each (c ∷ cs) w = close_each cs (net.close c w)

  -- func (p *smtpPool) Close() error: a second close of the channel panics.
  pub close_pool : M W (Unit {0})
  unfolding close_each
  close_pool s =
      if s.closed
      then panics
      else returns
          (ok tt, record s { conns = []; closed = true; world = close_each s.conns s.world })
