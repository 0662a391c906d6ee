-- ===== src/Kafka/Consumer/Pipeline.antt =====
-- internal/infrastructure/kafka/consumer.go: the channel of the messages between the claims of the
-- partitions and the workers, as a step relation over all interleavings of the goroutines. A message is
-- any value; what a worker does with it, and how long, is not part of the relation.
use edu_learn_notification_s.Prelude.{
  ℕ, suc, ◌≤◌, ◌<◌, Bool, true, false, ◌≡◌, refl, sym, ap, ◌∙◌, List, [], ◌∷◌, ◌++◌, length,
  length-append, arith, subst, zero,
}
use mathlib.Core.List.{append_assoc, Perm, perm_middle}
use mathlib.Core.List.Perm

module _ (M : Type 0) (buffer_size : ℕ) where
  -- The adapter: its channel, the messages that were put into it and not marked yet, and whether
  -- closeJobs has run; `workers` counts the workers that run. The histories of the messages that were
  -- put into the channel, marked, and taken by a worker stand oldest first.
  pub record Pipe : Type 0 where
    pub jobs : List M
    pub to_mark : List M
    pub stopped : Bool
    pub crashed : Bool
    pub workers : ℕ
    pub enqueued : List M
    pub marked : List M
    pub started : List M

  abbrev pub fresh : ℕ → Pipe
  fresh workers = record {
    jobs = [];
    to_mark = [];
    stopped = false;
    crashed = false;
    workers = workers;
    enqueued = [];
    marked = [];
    started = [];
  }

  -- One step of one goroutine. ConsumeClaim sends a message and marks it then; a worker takes the oldest
  -- message, after the stop too, or leaves; the send of a claim on the closed channel panics.
  pub data Step : Pipe → Pipe → Type 0 where
    send :
        {p : Pipe} (m : M)
        → p.stopped ≡ false
        → length p.jobs < buffer_size
        → Step p (record p {
          jobs = p.jobs ++ m ∷ [];
          to_mark = p.to_mark ++ m ∷ [];
          enqueued = p.enqueued ++ m ∷ [];
        })
    mark :
        {p : Pipe} (xs : List M) (m : M) (ys : List M)
        → p.to_mark ≡ xs ++ m ∷ ys
        → Step p (record p { to_mark = xs ++ ys; marked = p.marked ++ m ∷ [] })
    start :
        {p : Pipe} (n : ℕ) (m : M) (rest : List M)
        → p.workers ≡ suc n
        → p.jobs ≡ m ∷ rest
        → Step p (record p { jobs = rest; started = p.started ++ m ∷ [] })
    close_jobs : {p : Pipe} → p.stopped ≡ false → Step p (record p { stopped = true })
    leave :
        {p : Pipe} (n : ℕ)
        → p.stopped ≡ true
        → p.workers ≡ suc n
        → Step p (record p { workers = n })
    send_closed : {p : Pipe} (m : M) → p.stopped ≡ true → Step p (record p { crashed = true })

  pub data Steps : Pipe → Pipe → Type 0 where
    none_left : {p : Pipe} → Steps p p
    then_step : {p q r : Pipe} → Steps p q → Step q r → Steps p r

  -- What holds in every state.
  abbrev pub Ordered : Pipe → Type 0
  Ordered p =
      (p.enqueued ≡ p.started ++ p.jobs)
      × (length p.jobs ≤ buffer_size)
      × Perm (p.marked ++ p.to_mark) p.enqueued

  Step-Ordered : (p q : Pipe) → Step p q → Ordered p → Ordered q
  Step-Ordered p q (send m open_channel room) (o, b, c) = (
    ap (λ l. l ++ m ∷ []) o ∙ append_assoc p.started p.jobs (m ∷ []),
    omega (arith, length-append p.jobs (m ∷ [])),
    subst (λ l. Perm l (p.enqueued ++ m ∷ [])) (append_assoc p.marked p.to_mark (m ∷ []))
        (Perm.append_right (m ∷ []) c),
  )
  Step-Ordered p q (mark xs m ys e) (o, b, c) = (
    o,
    b,
    subst (λ l. Perm l p.enqueued) (sym (append_assoc p.marked (m ∷ []) (xs ++ ys)))
        (Perm.trans (Perm.append_left p.marked (Perm.symm (perm_middle xs ys)))
          (subst (λ l. Perm (p.marked ++ l) p.enqueued) e c)),
  )
  Step-Ordered p q (start n m rest w e) (o, b, c) = (
    o ∙ ap (λ l. p.started ++ l) e ∙ sym (append_assoc p.started (m ∷ []) rest),
    omega (arith, ap (length {A = M}) e),
    c,
  )
  Step-Ordered p q (close_jobs e) h = h
  Step-Ordered p q (leave n e w) h = h
  Step-Ordered p q (send_closed m e) h = h

  Steps-keeps : (p q : Pipe) → Steps p q → Ordered p → Ordered q
  Steps-keeps p q none_left h = h
  Steps-keeps p q (then_step s t) h = Step-Ordered _ q t (Steps-keeps p _ s h)

  -- From the start, in every interleaving: the workers have taken the messages in the order in which the
  -- claims have put them into the channel, each once; what they have not taken still waits in the
  -- channel, which never holds more than its size; and the messages that are marked or about to be are
  -- those that were put into it, each as often.
  pub Steps-Ordered : (workers : ℕ) (q : Pipe) → Steps (fresh workers) q → Ordered q
  Steps-Ordered workers q s = Steps-keeps (fresh workers) q s (refl, omega arith, Perm.refl [])

  Step-idle :
      (p q : Pipe)
      → Step p q
      → p.workers ≡ 0
      → p.stopped ≡ true
      → (q.workers ≡ 0) × (q.stopped ≡ true) × (q.started ≡ p.started)
  Step-idle p q (send m e room) w s = absurd (ground arith)
  Step-idle p q (mark xs m ys e) w s = (w, s, refl)
  Step-idle p q (start n m rest v e) w s = absurd (omega (arith, w, v))
  Step-idle p q (close_jobs e) w s = absurd (ground arith)
  Step-idle p q (leave n e v) w s = absurd (omega (arith, w, v))
  Step-idle p q (send_closed m e) w s = (w, s, refl)

  Steps-idle :
      (p q : Pipe)
      → Steps p q
      → p.workers ≡ 0
      → p.stopped ≡ true
      → (q.workers ≡ 0) × (q.stopped ≡ true) × (q.started ≡ p.started)
  Steps-idle p q none_left w s = (w, s, refl)
  Steps-idle p q (then_step {q = r} t u) w s =
      let (w', s', a) = Steps-idle p r t w s in
      let (w'', s'', a') = Step-idle r q u w' s' in (w'', s'', a' ∙ a)

  -- Once the adapter is stopped and its workers have left, no message is taken any more.
  Steps-started :
      (p q : Pipe) → Steps p q → p.workers ≡ 0 → p.stopped ≡ true → q.started ≡ p.started
  Steps-started p q s w e = let (w', e', same) = Steps-idle p q s w e in same

  -- The adapter is stopped, and its one message, which is marked, waits in the channel.
  abbrev waiting : ℕ → M → Pipe
  waiting workers m = record (fresh workers) {
    jobs = m ∷ [];
    stopped = true;
    enqueued = m ∷ [];
    marked = m ∷ [];
  }

  all_leave :
      (begin n : ℕ) (m : M) → Steps (fresh begin) (waiting n m) → Steps (fresh begin) (waiting 0 m)
  all_leave begin zero m s = s
  all_leave begin (suc n) m s = all_leave begin n m (then_step s (leave n refl refl))

  -- Whatever the number of the workers, and for every message: a channel that holds at least one can come
  -- from the start to a state in which the message is marked, and from which no steps at all make a
  -- worker take it.
  pub Steps-lose :
      (workers : ℕ) (m : M)
      → 0 < buffer_size
      → (q : Pipe) × Steps (fresh workers) q
        × (q.marked ≡ m ∷ [])
        × ((r : Pipe) → Steps q r → r.started ≡ [])
  Steps-lose workers m room = (
    waiting 0 m,
    all_leave workers workers m (
        then_step (then_step (then_step none_left (send m refl room)) (mark [] m [] refl))
          (close_jobs refl)),
    refl,
    λ r s. Steps-started (waiting 0 m) r s refl refl,
  )
