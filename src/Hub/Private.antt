-- ===== src/Hub/Private.antt =====
-- Who is sent what: the texts in the channels of the connections, and the handlers of the hub.
pub mod Wires
use edu_learn_notification_s.Prelude.{
  ℕ, Bool, true, false, String, ◌≡◌, ◌∙◌, refl, sym, ap, subst, ◌⊎◌, inl, inr, List, [], ◌∷◌, ◌++◌,
  Option, some, none, length, arith, eqb, eqb_iff, ◌==◌, All, All-snoc, Bool-cases, List-cases, ltb,
  if◌then◌else◌,
}
use edu_learn_notification_s.Errors.{Result, ok, err, Result-cases}
use edu_learn_notification_s.Notification.{InAppWsMessage}
use edu_learn_notification_s.Hub.Groups.{members, contains}
use edu_learn_notification_s.Hub.{
  Hub, Client, BroadcastMessage, Tally, Outcome, done, panic, blocked, ◌>>=◌, write, try_send,
  tally_up, deliver, deliver_to, count_tally, handle_broadcast, handle_ping, send_unregister,
  close_conn, close_send, drop_client, crowd, unregister_all, enqueue_broadcast, forward,
  notify_in_app_message, handle_register, handle_unregister, send_cap, broadcast_cap, in_app_cap,
  unregister_cap, register_cap,
}
use edu_learn_notification_s.Hub.Pumps.{
  read_end, read_text, read_pong, seen, write_round, write_tick, is_ping, serve_ws, accept,
  new_client, Wire, text_message, close_message, ping_message, Pump,
}
use edu_learn_notification_s.Hub.Quiet.{Quiet, Quiet-refl, Ends, bind-Ends, try_send-Quiet}
use edu_learn_notification_s.Hub.Live.{Live}
use edu_learn_notification_s.Hub.Loop.{
  new_hub, Step, serves, registers, unregisters, broadcasts, pings, notifies, forwards, reads,
  hears, writes, ticks, reader_ends, Steps, no_step, then_step, Steps-Live,
}

both-Ends :
    {A : Type 0} (P Q : A → Type 0) (r : Outcome A) → Ends P r → Ends Q r → Ends (λ a. P a × Q a) r
both-Ends P Q (done a) p q = (p, q)
both-Ends P Q panic p q = tt
both-Ends P Q blocked p q = tt

module _ (marshal : InAppWsMessage → Result String) (pong : ℕ → String) where
  -- A text for a user: a pong, or a message to this user.
  abbrev pub IsFor : String → String → Type 0
  IsFor user text =
      ((now : ℕ) × (text ≡ pong now))
      ⊎ ((m : InAppWsMessage) × (marshal m ≡ ok text) × (m.user_id ≡ user))

  abbrev pub HoldsOwn : Client → Type 0
  HoldsOwn client = All (IsFor client.user_id) client.send

  -- Each channel holds texts for the user of its connection, and each queued broadcast goes to the user
  -- whom its message names.
  abbrev pub Private : Hub → Type 0
  Private h =
      ((c : ℕ) → HoldsOwn (h.objects c)) × All (λ b. b.payload.user_id ≡ b.user_id) h.broadcast

  pub write-Private :
      (c : ℕ) (v : Client) (h : Hub)
      → Private h
      → HoldsOwn v
      → Private (record h { objects = write h.objects c v })
  write-Private c v h (own, queue) p =
      (λ d. elim (Bool-cases (eqb c d)) [ inl e ↦ rw e p | inr e ↦ rw e (own d) ], queue)

  pub try_send-Private :
      (c : ℕ) (text : String) (h : Hub)
      → Private h
      → IsFor (h.objects c).user_id text
      → Ends (λ r. Private r.0) (try_send c text h)
  unfolding try_send
  try_send-Private c text h p fits = elim (Bool-cases (h.objects c).send_closed) [
    | inl closed ↦ rw closed tt
    | inr open_channel ↦ elim (Bool-cases (ltb (length (h.objects c).send) send_cap)) [
      | inl room ↦
          rw (open_channel, room)
            (write-Private c
              (record (h.objects c) { send = (h.objects c).send ++ text ∷ []; send_closed = false })
              h p (All-snoc (IsFor (h.objects c).user_id) (h.objects c).send text (p.0 c) fits))
      | inr full ↦ rw (open_channel, full) p
    ]
  ]

  deliver-Private :
      (text : String) (cs : List ℕ) (t : Tally) (h : Hub)
      → Private h
      → ((c : ℕ) → contains c cs ≡ true → IsFor (h.objects c).user_id text)
      → Ends (λ r. Private r.0) (deliver text cs t h)
  unfolding deliver
  deliver-Private text [] t h p fits = p
  deliver-Private text (c ∷ cs) t h p fits =
      bind-Ends _ _ (try_send c text h) _
        (both-Ends _ _ (try_send c text h)
          (try_send-Private c text h p (fits c (ground (arith, eqb_iff c c))))
          (try_send-Quiet c text h))
        (λ r (q, same).
          deliver-Private text cs (tally_up r.1 t) r.0 q
            (λ d m. subst (λ u. IsFor u text) (sym ((same.4) d).0) (fits d (ground arith))))

  deliver_to-Private :
      (cs : List ℕ) (r : Result String) (h : Hub)
      → Private h
      → ((text : String)
          → r ≡ ok text
          → (c : ℕ) → contains c cs ≡ true
          → IsFor (h.objects c).user_id text)
      → Ends Private (deliver_to marshal cs r h)
  unfolding deliver_to count_tally
  deliver_to-Private cs (err e) h p fits = p
  deliver_to-Private cs (ok text) h p fits =
      bind-Ends _ _ (deliver text cs _ h) _ (deliver-Private text cs _ h p (fits text refl))
        (λ r q. q)

  pub handle_broadcast-Private :
      (m : BroadcastMessage) (h : Hub)
      → Live h
      → Private h
      → m.payload.user_id ≡ m.user_id
      → Ends Private (handle_broadcast marshal m h)
  unfolding handle_broadcast
  handle_broadcast-Private m h live p named =
      let cs = members m.user_id h.clients in
      elim (Bool-cases (eqb (length cs) 0)) [
        | inl e ↦ rw e p
        | inr e ↦ rw e (
            deliver_to-Private cs (marshal m.payload) h p (λ text made c member.
              inr (m.payload, made, named ∙ sym (live.inv.owned m.user_id c member).0)))
      ]

  pub send_unregister-Private : (c : ℕ) (h : Hub) → Private h → Ends Private (send_unregister c h)
  unfolding send_unregister
  send_unregister-Private c h p = elim (Bool-cases (ltb (length h.unregister) unregister_cap)) [
    | inl room ↦ rw room p
    | inr full ↦ rw full tt
  ]

  pub close_conn-Private : (c : ℕ) (h : Hub) → Private h → Private (close_conn c h)
  unfolding close_conn
  close_conn-Private c h p =
      write-Private c (record (h.objects c) { conn_open = false }) h p (p.0 c)

  crowd-Private : (ds : List ℕ) (h : Hub) → Private h → Private (crowd ds h)
  unfolding crowd
  crowd-Private [] h p = p
  crowd-Private (d ∷ ds) h p = elim (Bool-cases (ltb (length h.unregister) unregister_cap)) [
    | inl room ↦ rw room (crowd-Private ds (record h { unregister = h.unregister ++ d ∷ [] }) p)
    | inr full ↦ rw full p
  ]

  unregister_all-Private :
      (others : ℕ → List ℕ) (cs : List ℕ) (h : Hub)
      → Private h
      → Ends Private (unregister_all others cs h)
  unfolding unregister_all
  unregister_all-Private others [] h p = p
  unregister_all-Private others (c ∷ cs) h p =
      let crowded = crowd (others c) h in
      bind-Ends _ _ (send_unregister c crowded) _
        (send_unregister-Private c crowded (crowd-Private (others c) h p))
        (λ i q. unregister_all-Private others cs (close_conn c i) (close_conn-Private c i q))

  pub handle_ping-Private :
      (others : ℕ → List ℕ) (now : ℕ) (h : Hub)
      → Private h
      → Ends Private (handle_ping others now h)
  unfolding handle_ping
  handle_ping-Private others now h p = unregister_all-Private others _ h p

  pub handle_unregister-Private :
      (c : ℕ) (h : Hub) → Private h → Ends Private (handle_unregister c h)
  unfolding handle_unregister drop_client close_send
  handle_unregister-Private c h p =
      elim (Bool-cases (contains c (members (h.objects c).user_id h.clients))) [
        | inr out ↦ rw out p
        | inl known ↦ elim (Bool-cases (h.objects c).send_closed) [
          | inl closed ↦ rw (known, closed) tt
          | inr open_channel ↦
              rw (known, open_channel)
                (write-Private c (record (h.objects c) { send_closed = true }) h p (p.0 c))
        ]
      ]
