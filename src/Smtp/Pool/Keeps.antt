-- ===== src/Smtp/Pool/Keeps.antt =====
-- No connection of the pool is lost: each that is in use is idle in the pool or held by a sender.
use edu_learn_notification_s.Prelude.{
  ℕ, Bool, true, false, ◌≡◌, sym, refl, List, [], ◌∷◌, length, length-append, ltb, eqb_iff, inl,
  inr, arith, if◌then◌else◌, Bool-cases, ltb→lt, subst, ap,
}
use edu_learn_notification_s.Errors.{Result, ok, err}
use edu_learn_notification_s.Effect.{Exec}
use edu_learn_notification_s.Hub.Groups.{contains, Distinct, contains-snoc, Distinct-snoc}
use edu_learn_notification_s.Smtp.{
  Run, returns, panics, EmailConfig, NetSmtp, State, M, then_run, on_ok, ◌>>◌, succeeds,
}
use edu_learn_notification_s.Smtp.Pool.{
  close_client, create_client, take_idle, get_idle, get, put_back, put, give_back,
}
use edu_learn_notification_s.Smtp.Pool.Opened.{
  Ends, SameUse, NetLaws, lease, Tidy, Leased, world-Tidy, closed-Tidy, create_client-Leased,
}

module _ {W : Type 0} {net : NetSmtp W} {in_use : W → ℕ → Bool} (laws : NetLaws net in_use)
    (config : EmailConfig) where
  -- A question put to a held connection: it has an answer, and the connection stays held.
  abbrev Asked : ℕ → (ℕ → Bool) → Result Bool × State W → Type 0
  Asked c held (ok b, s) = Tidy in_use config (lease c held) s
  Asked c held (err e, s) = ⊥

  asked-Ends :
      {B : Type 0} (Q : Result B × State W → Type 0) (c : ℕ) (held : ℕ → Bool)
      (m : Exec W (Unit {0})) (f : Bool → M W B) (s : State W)
      → SameUse in_use s.world (m s.world).1
      → Tidy in_use config (lease c held) s
      → ((b : Bool) (s' : State W) → Tidy in_use config (lease c held) s' → Ends Q (f b s'))
      → Ends Q (then_run (succeeds m s) (on_ok f))
  asked-Ends Q c held m f s same t k =
      k _ _ (world-Tidy laws config (lease c held) (m s.world).1 s same t)

  close_client-Tidy :
      (held : ℕ → Bool) (c : ℕ) (s : State W)
      → held c ≡ false
      → Tidy in_use config (lease c held) s
      → Ends (λ r. Tidy in_use config held r.1) (close_client net c s)
  unfolding close_client
  close_client-Tidy held c s free t = closed-Tidy laws config held c s.world s free (λ d n. refl) t

  pub take_idle-Leased :
      (held : ℕ → Bool) (c : ℕ) (s : State W)
      → held c ≡ false
      → Tidy in_use config (lease c held) s
      → Ends (Leased laws config held) (take_idle net c s)
  unfolding take_idle close_client
  take_idle-Leased held c s free t =
      asked-Ends (Leased laws config held) c held (net.noop c) _ s (laws.noop_keeps c s.world) t
        (λ b s' t'.
          elim b
            as (λ b. Ends (Leased laws config held) (
              (if b then (λ s. returns (ok c, s)) else (close_client net c >> create_client net))
                s')) [
                  | true ↦ (free, t')
                  | false ↦
                      create_client-Leased laws config held _
                        (closed-Tidy laws config held c s'.world s' free (λ d n. refl) t')
                ])

  -- The connection at the head of the pool passes to the sender.
  pub popped-Tidy :
      (held : ℕ → Bool) (c : ℕ) (cs : List ℕ) (s : State W)
      → s.conns ≡ c ∷ cs
      → Tidy in_use config held s
      → (held c ≡ false) × Tidy in_use config (lease c held) (record s { conns = cs })
  popped-Tidy held c cs s e t =
      let once : Distinct (c ∷ cs) = subst Distinct e t.distinct in
      let first : contains c s.conns ≡ true = rw e (ground (arith, eqb_iff c c)) in
      (
        t.apart c first,
        record {
          running = t.running;
          distinct = once.1;
          exact = λ d. ground (arith, t.exact d, ap (contains d) e);
          apart = λ d m. ground (arith, t.apart d, ap (contains d) e, eqb_iff c d, once.0);
          fits = omega (arith, t.fits, ap (length {A = ℕ}) e);
          clean = t.clean;
        },
      )

  get_idle-Leased :
      (held : ℕ → Bool) (cs : List ℕ) (s : State W)
      → s.conns ≡ cs
      → Tidy in_use config held s
      → Ends (Leased laws config held) (get_idle net cs s)
  unfolding get_idle
  get_idle-Leased held [] s e t =
      subst (λ b. Ends (Leased laws config held) (if b then panics else create_client net s))
        (sym t.running) (create_client-Leased laws config held s t)
  get_idle-Leased held (c ∷ cs) s e t =
      let (free, t') = popped-Tidy held c cs s e t in
      take_idle-Leased held c (record s { conns = cs }) free t'

  -- Get never panics on an open pool, and the connection that it gives is held by nobody else.
  pub get-Leased :
      (held : ℕ → Bool) (s : State W)
      → Tidy in_use config held s
      → Ends (Leased laws config held) (get net s)
  unfolding get
  get-Leased held s t = get_idle-Leased held s.conns s refl t

  put_back-Tidy :
      (held : ℕ → Bool) (c : ℕ) (s : State W)
      → held c ≡ false
      → Tidy in_use config (lease c held) s
      → Ends (λ r. Tidy in_use config held r.1) (put_back net config c s)
  unfolding put_back
  put_back-Tidy held c s free t =
      let absent : contains c s.conns ≡ false = ground (arith, t.apart c, eqb_iff c c) in
      let open_pool : Run (Result (Unit {0}) × State W) → Bool → Type 0 =
        λ r b. Ends (λ x. Tidy in_use config held x.1) (if b then panics else r) in
      subst (open_pool _) (sym t.running)
        (elim (Bool-cases (ltb (length s.conns) config.pool_size)) [
          | inl room ↦ rw room (record {
            running = t.running;
            distinct = Distinct-snoc c s.conns t.distinct absent;
            exact = λ d. ground (arith, t.exact d, contains-snoc c d s.conns);
            apart = λ d m. ground (arith, t.apart d, contains-snoc c d s.conns, eqb_iff c d);
            fits = omega (arith, length-append s.conns (c ∷ []), ltb→lt _ _ room);
            clean = t.clean;
          })
          | inr full ↦ rw full (close_client-Tidy held c s free t)
        ])

  -- Whatever the server answers, a connection that is given back is in the pool or closed.
  pub give_back-Tidy :
      (held : ℕ → Bool) (c : ℕ) (s : State W)
      → held c ≡ false
      → Tidy in_use config (lease c held) s
      → Ends (λ r. Tidy in_use config held r.1) (give_back net config c s)
  unfolding give_back put
  give_back-Tidy held c s free t =
      let Q : Result (Unit {0}) × State W → Type 0 = λ r. Tidy in_use config held r.1 in
      asked-Ends Q c held (net.reset c) _ s (laws.reset_keeps c s.world) t λ clean s' t'.
        elim clean as (λ b. Ends Q ((if b then put net config c else close_client net c) s')) [
          | true ↦
              asked-Ends Q c held (net.noop c) _ s' (laws.noop_keeps c s'.world) t' λ alive i t''.
                elim alive
                  as (λ b. Ends Q ((if b then put_back net config c else close_client net c) i)) [
                    | true ↦ put_back-Tidy held c i free t''
                    | false ↦ close_client-Tidy held c i free t''
                  ]
          | false ↦ close_client-Tidy held c s' free t'
        ]
