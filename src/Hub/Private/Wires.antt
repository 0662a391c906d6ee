-- ===== src/Hub/Private/Wires.antt =====
-- What the writers put on the sockets, over all interleavings.
use edu_learn_notification_s.Prelude.{
  ℕ, Bool, true, false, String, ◌≡◌, refl, sym, subst, inl, inr, List, [], ◌∷◌, Option, some, none,
  length, ◌==◌, All, All-snoc, Bool-cases, List-cases, ltb,
}
use edu_learn_notification_s.Errors.{Result, ok, err}
use edu_learn_notification_s.Notification.{InAppWsMessage}
use edu_learn_notification_s.Hub.{
  Hub, Client, done, write, try_send, send_unregister, enqueue_broadcast, forward,
  notify_in_app_message, handle_register, broadcast_cap, in_app_cap, register_cap,
}
use edu_learn_notification_s.Hub.Pumps.{
  read_end, read_text, read_pong, seen, write_round, write_tick, is_ping, serve_ws, accept,
  new_client, Wire, text_message, close_message, ping_message, Pump,
}
use edu_learn_notification_s.Hub.Quiet.{Quiet-refl, Ends, bind-Ends}
use edu_learn_notification_s.Hub.Live.{Live, Quiet-Live}
use edu_learn_notification_s.Hub.Loop.{
  new_hub, Step, serves, registers, unregisters, broadcasts, pings, notifies, forwards, reads,
  hears, writes, ticks, reader_ends, Steps, no_step, then_step, new_hub-Live, Step-Live,
}
use edu_learn_notification_s.Hub.Private.{
  IsFor, Private, write-Private, try_send-Private, send_unregister-Private, close_conn-Private,
  handle_broadcast-Private, handle_ping-Private, handle_unregister-Private,
}

module _ (marshal : InAppWsMessage → Result String) (pong : ℕ → String) where
  read_end-Private :
      (c : ℕ) (h : Hub) → Private marshal pong h → Ends (Private marshal pong) (read_end c h)
  unfolding read_end
  read_end-Private c h p =
      bind-Ends _ _ (send_unregister c h) _ (send_unregister-Private marshal pong c h p)
        (λ i q. close_conn-Private marshal pong c i q)

  read_text-Private :
      (type_of : String → Option String) (now c : ℕ) (text : String) (h : Hub)
      → Private marshal pong h
      → Ends (Private marshal pong) (read_text type_of pong now c text h)
  unfolding read_text seen
  read_text-Private type_of now c text h p =
      elim (Bool-cases (is_ping type_of pong (type_of text))) [
        | inl ping ↦ rw ping (
            bind-Ends _ _ (try_send c (pong now) (seen now c h)) _
              (try_send-Private marshal pong c (pong now) (seen now c h)
                (write-Private marshal pong c (record (h.objects c) { last_seen = now }) h p
                  (p.0 c))
                (inl (now, refl)))
              (λ r q. q))
        | inr other ↦ rw other p
      ]

  read_pong-Private :
      (now c : ℕ) (h : Hub) → Private marshal pong h → Private marshal pong (read_pong now c h)
  unfolding read_pong seen
  read_pong-Private now c h p =
      write-Private marshal pong c (record (h.objects c) { last_seen = now }) h p (p.0 c)

  -- What a writer puts on the socket of a connection: texts for its user, and control messages.
  abbrev pub WiresFor : String → List Wire → Type 0
  WiresFor user = All (λ x. elim x [
    | text_message text ↦ IsFor marshal pong user text
    | close_message ↦ Unit {0}
    | ping_message ↦ Unit {0}
  ])

  write_round-Private :
      (c : ℕ) (written : Bool) (h : Hub)
      → Private marshal pong h
      → Ends
          (λ r. Private marshal pong r.0 × WiresFor (h.objects c).user_id r.1)
          (write_round c written h)
  unfolding write_round
  write_round-Private c written h p = elim (List-cases (h.objects c).send) [
    | inl e ↦ elim (Bool-cases (h.objects c).send_closed) [
      | inl closed ↦
          rw (e, write_round, closed)
            (
              write-Private marshal pong c
                  (record (h.objects c) { send_closed = true; conn_open = false }) h p (p.0 c),
              (tt, tt),
            )
      | inr open_channel ↦ rw (e, write_round, open_channel) tt
    ]
    | inr (text, rest, e) ↦
        let own : All (IsFor marshal pong (h.objects c).user_id) (text ∷ rest) =
          subst (All (IsFor marshal pong (h.objects c).user_id)) e (p.0 c) in
        let taken = record (h.objects c) { send = rest } in
        let i = record h { objects = write h.objects c taken } in
        let q = write-Private marshal pong c taken h p own.1 in
        elim (Bool-cases written) [
          | inl sent ↦ rw (e, write_round, sent) (q, (own.0, tt))
          | inr failed ↦ rw (e, write_round, failed) (close_conn-Private marshal pong c i q, tt)
        ]
  ]

  write_tick-Private :
      (c : ℕ) (written : Bool) (h : Hub)
      → Private marshal pong h
      → Private marshal pong (write_tick c written h).0
  unfolding write_tick
  write_tick-Private c true h p = p
  write_tick-Private c false h p = close_conn-Private marshal pong c h p

  enqueue_broadcast-Private :
      (m : InAppWsMessage) (h : Hub)
      → Private marshal pong h
      → Private marshal pong (enqueue_broadcast m.user_id m h)
  unfolding enqueue_broadcast
  enqueue_broadcast-Private m h (own, queue) =
      elim (Bool-cases (ltb (length h.broadcast) broadcast_cap)) [
        | inl room ↦ rw room (own, All-snoc _ h.broadcast _ queue refl)
        | inr full ↦ rw full (own, queue)
      ]

  forward-Private : (h : Hub) → Private marshal pong h → Private marshal pong (forward h)
  unfolding forward
  forward-Private h p = elim (List-cases h.new_in_app) [
    | inl e ↦ rw e p
    | inr (m, ms, e) ↦ rw e (enqueue_broadcast-Private m (record h { new_in_app = ms }) p)
  ]

  notify_in_app_message-Private :
      (m : Option InAppWsMessage) (h : Hub)
      → Private marshal pong h
      → Private marshal pong (notify_in_app_message m h).1
  unfolding notify_in_app_message
  notify_in_app_message-Private none h p = p
  notify_in_app_message-Private (some m) h p = elim (Bool-cases (m.user_id == "")) [
    | inl e ↦ rw e p
    | inr e ↦ elim (Bool-cases (ltb (length h.new_in_app) in_app_cap)) [
      | inl room ↦ rw (e, room) p
      | inr full ↦ rw (e, full) p
    ]
  ]

  serve_ws-Private :
      (now : ℕ) (auth : Result String) (upgraded : Bool) (h : Hub)
      → Private marshal pong h
      → Ends (λ r. Private marshal pong r.0) (serve_ws now auth upgraded h)
  unfolding serve_ws accept new_client
  serve_ws-Private now (err e) upgraded h p = p
  serve_ws-Private now (ok user_id) true h p = elim (Bool-cases (user_id == "")) [
    | inl empty ↦ rw empty p
    | inr named ↦ elim (Bool-cases (ltb (length h.register) register_cap)) [
      | inl room ↦ rw (named, room) (write-Private marshal pong h.next _ h p tt)
      | inr full ↦ rw (named, full) tt
    ]
  ]
  serve_ws-Private now (ok user_id) false h p = elim (Bool-cases (user_id == "")) [
    | inl empty ↦ rw empty p
    | inr named ↦ rw named p
  ]

  module _ (type_of : String → Option String) where
    Step-Private :
        (h h' : Hub)
        → Step marshal type_of pong h h'
        → Live h
        → Private marshal pong h
        → Private marshal pong h'
    unfolding handle_register
    Step-Private h h' (serves now auth upgraded r e) v p =
        subst (Ends (λ x. Private marshal pong x.0)) e (serve_ws-Private now auth upgraded h p)
    Step-Private h h' (registers c rest e) v p = p
    Step-Private h h' (unregisters c rest e d) v p =
        subst (Ends (Private marshal pong)) d
          (handle_unregister-Private marshal pong c (record h { unregister = rest }) p)
    Step-Private h h' (broadcasts m rest e d) v p =
        let q : All (λ b. b.payload.user_id ≡ b.user_id) (m ∷ rest) =
          subst (All (λ b. b.payload.user_id ≡ b.user_id)) e p.1 in
        let i = record h { broadcast = rest } in
        subst (Ends (Private marshal pong)) d (
          handle_broadcast-Private marshal pong m i (Quiet-Live h i (Quiet-refl h) v) (p.0, q.1)
            q.0)
    Step-Private h h' (pings others now e) v p =
        subst (Ends (Private marshal pong)) e (handle_ping-Private marshal pong others now h p)
    Step-Private h h' (notifies m) v p = notify_in_app_message-Private m h p
    Step-Private h h' forwards v p = forward-Private h p
    Step-Private h h' (reads now c text e) v p =
        subst (Ends (Private marshal pong)) e (read_text-Private type_of now c text h p)
    Step-Private h h' (hears now c) v p = read_pong-Private now c h p
    Step-Private h h' (writes c written out pump e) v p =
        (subst (Ends (λ r. Private marshal pong r.0 × WiresFor (h.objects c).user_id r.1)) e
          (write_round-Private c written h p)).0
    Step-Private h h' (ticks c written) v p = write_tick-Private c written h p
    Step-Private h h' (reader_ends c e) v p =
        subst (Ends (Private marshal pong)) e (read_end-Private c h p)

    Steps-Private :
        (h h' : Hub)
        → Steps marshal type_of pong h h'
        → Live h
        → Private marshal pong h
        → Live h' × Private marshal pong h'
    Steps-Private h h' no_step v p = (v, p)
    Steps-Private h h' (then_step {i = i} s t) v p =
        let (v', p') = Steps-Private h i s v p in
        (Step-Live marshal type_of pong i h' t v', Step-Private i h' t v' p')

    new_hub-Private :
        (objects : ℕ → Client)
        → ((c : ℕ) → (objects c).send ≡ [])
        → Private marshal pong (new_hub objects)
    unfolding new_hub
    new_hub-Private objects empty =
        (λ c. subst (All (IsFor marshal pong (objects c).user_id)) (sym (empty c)) tt, tt)

    -- A user is sent nothing that is for another: in every interleaving of the goroutines' steps that
    -- starts at a new hub over channels that are empty, without a shutdown and with no panic so far, each
    -- text that a writer then puts on the socket of a connection is a pong, or the encoding of a message
    -- that names the user of this connection.
    pub Steps-write_round :
        (objects : ℕ → Client)
        → ((c : ℕ) → (objects c).send ≡ [])
        → (h h' : Hub) (c : ℕ) (written : Bool) (out : List Wire) (pump : Pump)
        → Steps marshal type_of pong (new_hub objects) h
        → write_round c written h ≡ done (h', out, pump)
        → WiresFor (h.objects c).user_id out
    Steps-write_round objects empty h h' c written out pump steps e =
        let (v, p) =
          Steps-Private (new_hub objects) h steps (new_hub-Live objects)
            (new_hub-Private objects empty) in
        (subst (Ends (λ r. Private marshal pong r.0 × WiresFor (h.objects c).user_id r.1)) e
          (write_round-Private c written h p)).1
