-- ===== src/Smtp/Pool/Opened.antt =====
-- The state of the pool that every call keeps, and what it takes to open a connection: the one that is
-- made is held by the caller, and a failure on the way closes it.
use edu_learn_notification_s.Prelude.{
  ℕ, ◌≤◌, Bool, true, false, ◌||◌, ◌≡◌, ◌∙◌, String, All, length, eqb, eqb_iff, inl, inr, arith,
  if◌then◌else◌, Bool-cases,
}
use edu_learn_notification_s.Errors.{Result, ok, err}
use edu_learn_notification_s.Hub.Groups.{contains, Distinct}
use edu_learn_notification_s.Smtp.{
  Run, returns, panics, EmailConfig, new_email, Dialled, cancelled, failed, connected, NetSmtp,
  State, M, then_run, on_ok,
}
use edu_learn_notification_s.Smtp.Pool.{closed_on, closing, if_offered, open_client, create_client}

-- What holds of a call that does not panic.
abbrev pub Ends : {A : Type 0} → (A → Type 0) → Run A → Type 0
Ends P (returns a) = P a
Ends P panics = ⊥

module _ {W : Type 0} (in_use : W → ℕ → Bool) where
  -- The same connections are in use.
  abbrev pub SameUse : W → W → Type 0
  SameUse w w' = (d : ℕ) → in_use w' d ≡ in_use w d

  -- A dial that succeeds puts one connection in use, which was not; another none: what a cancelled one
  -- has opened by then, or opens later, stays in its channel, where nobody takes it.
  abbrev pub Dials : W → Dialled × W → Type 0
  Dials w (connected c, w') =
      (in_use w c ≡ false) × ((d : ℕ) → in_use w' d ≡ (if eqb c d then true else in_use w d))
  Dials w (cancelled, w') = SameUse w w'
  Dials w (failed e, w') = SameUse w w'

  -- A call on the connection `c` that may close it where it fails.
  abbrev pub MayClose : ℕ → W → Result (Unit {0}) × W → Type 0
  MayClose c w (ok u, w') = SameUse w w'
  MayClose c w (err e, w') = (d : ℕ) → eqb c d ≡ false → in_use w' d ≡ in_use w d

-- Which connections of the process are in use, that is, open and not left in the channel of a dial
-- that was cancelled, and what the libraries do to them. `Close` closes the connection, whatever it
-- returns; a greeting, a handshake or an authentication that fails may.
pub record NetLaws {W : Type 0} (net : NetSmtp W) (in_use : W → ℕ → Bool) : Type 0 where
  pub dials : (w : W) → Dials in_use w (net.dial w)
  pub new_client_may_close : (c : ℕ) (w : W) → MayClose in_use c w (net.new_client c w)
  pub start_tls_may_close : (c : ℕ) (w : W) → MayClose in_use c w (net.start_tls c w)
  pub auth_may_close : (c : ℕ) (w : W) → MayClose in_use c w (net.auth c w)
  pub extension_keeps : (s : String) (c : ℕ) (w : W) → SameUse in_use w (net.extension s c w).1
  pub noop_keeps : (c : ℕ) (w : W) → SameUse in_use w (net.noop c w).1
  pub reset_keeps : (c : ℕ) (w : W) → SameUse in_use w (net.reset c w).1
  pub mail_keeps : (s : String) (c : ℕ) (w : W) → SameUse in_use w (net.mail s c w).1
  pub rcpt_keeps : (s : String) (c : ℕ) (w : W) → SameUse in_use w (net.rcpt s c w).1
  pub data_command_keeps : (c : ℕ) (w : W) → SameUse in_use w (net.data_command c w).1
  pub write_keeps : (s : String) (c : ℕ) (w : W) → SameUse in_use w (net.write s c w).1
  pub close_writer_keeps : (c : ℕ) (w : W) → SameUse in_use w (net.close_writer c w).1
  pub close_closes :
      (c d : ℕ) (w : W) → in_use (net.close c w) d ≡ (if eqb c d then false else in_use w d)

-- The connection `c` besides those of `held`.
abbrev pub lease : ℕ → (ℕ → Bool) → ℕ → Bool
lease c held d = eqb c d || held d

-- The pool is open and not over its size; each connection in use is idle in the pool, once, or held by a
-- sender, and not both; and the messages for another use carry nothing of an earlier one.
pub record Tidy {W : Type 0} (in_use : W → ℕ → Bool) (config : EmailConfig) (held : ℕ → Bool)
    (s : State W) : Type 0 where
  pub running : s.closed ≡ false
  pub distinct : Distinct s.conns
  pub exact : (d : ℕ) → in_use s.world d ≡ (contains d s.conns || held d)
  pub apart : (d : ℕ) → contains d s.conns ≡ true → held d ≡ false
  pub fits : length s.conns ≤ config.pool_size
  pub clean : All (λ e. e ≡ new_email) s.emails

module _ {W : Type 0} {net : NetSmtp W} {in_use : W → ℕ → Bool} (laws : NetLaws net in_use)
    (config : EmailConfig) where
  pub world-Tidy :
      (held : ℕ → Bool) (w : W) (s : State W)
      → SameUse in_use s.world w
      → Tidy in_use config held s
      → Tidy in_use config held (record s { world = w })
  world-Tidy held w s same t = record {
    running = t.running;
    distinct = t.distinct;
    exact = λ d. same d ∙ t.exact d;
    apart = t.apart;
    fits = t.fits;
    clean = t.clean;
  }

  -- A connection that is held is closed, whether or not it was closed already.
  pub closed-Tidy :
      (held : ℕ → Bool) (c : ℕ) (w : W) (s : State W)
      → held c ≡ false
      → ((d : ℕ) → eqb c d ≡ false → in_use w d ≡ in_use s.world d)
      → Tidy in_use config (lease c held) s
      → Tidy in_use config held (record s { world = net.close c w })
  closed-Tidy held c w s free others t = record {
    running = t.running;
    distinct = t.distinct;
    exact = λ d.
        ground (
          arith,
          eqb_iff c d,
          laws.close_closes c d w,
          others d,
          t.exact d,
          t.apart c,
          eqb_iff c c,
        );
    apart = λ d m. ground (arith, t.apart d m);
    fits = t.fits;
    clean = t.clean;
  }

  -- What a call leaves that gives a connection: the connection held, or nothing new.
  abbrev pub Leased : (ℕ → Bool) → Result ℕ × State W → Type 0
  Leased held (ok c, s) = (held c ≡ false) × Tidy in_use config (lease c held) s
  Leased held (err e, s) = Tidy in_use config held s

  -- What a step leaves that holds the connection `c` on success, and has closed it on an error.
  abbrev Stays : ℕ → (ℕ → Bool) → Result (Unit {0}) × State W → Type 0
  Stays c held (ok u, s) = Tidy in_use config (lease c held) s
  Stays c held (err e, s) = Tidy in_use config held s

  closed_on-Stays :
      (c : ℕ) (held : ℕ → Bool) (text : String) (s : State W) (r : Result (Unit {0}) × W)
      → held c ≡ false
      → MayClose in_use c s.world r
      → Tidy in_use config (lease c held) s
      → Ends (Stays c held) (closed_on net c text r.0 (record s { world = r.1 }))
  unfolding closed_on
  closed_on-Stays c held text s (ok u, w) free may t = world-Tidy (lease c held) w s may t
  closed_on-Stays c held text s (err e, w) free may t = closed-Tidy held c w s free may t

  if_offered-Stays :
      (c : ℕ) (held : ℕ → Bool) (name : String) (m : M W (Unit {0})) (s : State W)
      → ((s' : State W) → Tidy in_use config (lease c held) s' → Ends (Stays c held) (m s'))
      → Tidy in_use config (lease c held) s
      → Ends (Stays c held) (if_offered net name c m s)
  unfolding if_offered
  if_offered-Stays c held name m s k t =
      let asked =
        world-Tidy (lease c held) (net.extension name c s.world).1 s
          (laws.extension_keeps name c s.world) t in
      elim (Bool-cases (net.extension name c s.world).0) [
        | inl offered ↦ rw offered (k _ asked)
        | inr other ↦ rw other asked
      ]

  step-Stays :
      (c : ℕ) (held : ℕ → Bool) (r : Run (Result (Unit {0}) × State W)) (m : M W (Unit {0}))
      → Ends (Stays c held) r
      → ((s : State W) → Tidy in_use config (lease c held) s → Ends (Stays c held) (m s))
      → Ends (Stays c held) (then_run r (on_ok (λ _. m)))
  step-Stays c held (returns (ok u, s)) m p k = k s p
  step-Stays c held (returns (err e, s)) m p k = p
  step-Stays c held panics m p k = elim p [ ]

  last-Leased :
      (c : ℕ) (held : ℕ → Bool) (r : Run (Result (Unit {0}) × State W))
      → held c ≡ false
      → Ends (Stays c held) r
      → Ends (Leased held) (then_run r (on_ok (λ _ s. returns (ok c, s))))
  last-Leased c held (returns (ok u, s)) free p = (free, p)
  last-Leased c held (returns (err e, s)) free p = p
  last-Leased c held panics free p = elim p [ ]

  opened-Tidy :
      (held : ℕ → Bool) (c : ℕ) (w : W) (s : State W)
      → Dials in_use s.world (connected c, w)
      → Tidy in_use config held s
      → (held c ≡ false) × Tidy in_use config (lease c held) (record s { world = w })
  opened-Tidy held c w s (shut, one) t = (
    ground (arith, t.exact c),
    record {
      running = t.running;
      distinct = t.distinct;
      exact = λ d. ground (arith, one d, t.exact d);
      apart = λ d m. ground (arith, t.apart d m, t.exact c, eqb_iff c d);
      fits = t.fits;
      clean = t.clean;
    },
  )

  open_client-Leased :
      (held : ℕ → Bool) (s : State W) (d : Dialled × W)
      → Dials in_use s.world d
      → Tidy in_use config held s
      → Ends (Leased held) (open_client net d.0 (record s { world = d.1 }))
  unfolding open_client closing
  open_client-Leased held s (cancelled, w) o t = world-Tidy held w s o t
  open_client-Leased held s (failed e, w) o t = world-Tidy held w s o t
  open_client-Leased held s (connected c, w) o t =
      let (free, t') = opened-Tidy held c w s o t in
      last-Leased c held _ free (
        step-Stays c held _ _
          (step-Stays c held _ _
            (closed_on-Stays c held _ _ (net.new_client c w) free (laws.new_client_may_close c w)
              t')
            (λ s'. if_offered-Stays c held "STARTTLS" _ s' (λ s''.
              closed_on-Stays c held "STARTTLS failed" s'' (net.start_tls c s''.world) free
                (laws.start_tls_may_close c s''.world))))
          (λ s'. if_offered-Stays c held "AUTH" _ s' (λ s''.
            closed_on-Stays c held "authentication failed" s'' (net.auth c s''.world) free
              (laws.auth_may_close c s''.world))))

  pub create_client-Leased :
      (held : ℕ → Bool) (s : State W)
      → Tidy in_use config held s
      → Ends (Leased held) (create_client net s)
  unfolding create_client
  create_client-Leased held s t =
      open_client-Leased held s (net.dial s.world) (laws.dials s.world) t
