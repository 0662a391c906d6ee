-- ===== src/Hub/Quiet.antt =====
-- The steps of the hub that leave the registry alone.
use edu_learn_notification_s.Prelude.{
  ℕ, Bool, true, false, String, ◌≡◌, ◌∙◌, refl, sym, inl, inr, List, [], ◌∷◌, ◌++◌, Option, length,
  arith, eqb, eqb_iff, ◌==◌, Bool-cases, List-cases, ltb, none, some,
}
use edu_learn_notification_s.Errors.{Result, ok, err}
use edu_learn_notification_s.Notification.{InAppWsMessage}
use edu_learn_notification_s.Hub.Groups.{members}
use edu_learn_notification_s.Hub.{
  Hub, Client, BroadcastMessage, Tally, Outcome, done, panic, blocked, ◌>>=◌, write, try_send,
  tally_up, deliver, deliver_to, count_tally, handle_broadcast, handle_ping, send_unregister,
  close_conn, crowd, unregister_all, enqueue_broadcast, forward, notify_in_app_message, send_cap,
  broadcast_cap, in_app_cap, unregister_cap,
}
use edu_learn_notification_s.Hub.Pumps.{
  read_end, read_text, read_pong, seen, write_round, write_tick, is_ping,
}

-- A step that leaves the registry, and the owner and the end of every channel, as they are.
abbrev pub Quiet : Hub → Hub → Type 0
Quiet h h' =
    (h'.clients ≡ h.clients)
    × (h'.register ≡ h.register)
    × (h'.next ≡ h.next)
    × (h'.total_clients ≡ h.total_clients)
    × ((c : ℕ)
        → ((h'.objects c).user_id ≡ (h.objects c).user_id)
          × ((h'.objects c).send_closed ≡ (h.objects c).send_closed))

pub Quiet-refl : (h : Hub) → Quiet h h
Quiet-refl h = (refl, refl, refl, refl, λ c. (refl, refl))

Quiet-trans : (h i j : Hub) → Quiet h i → Quiet i j → Quiet h j
Quiet-trans h i j (a, b, c, d, e) (a', b', c', d', e') =
    (a' ∙ a, b' ∙ b, c' ∙ c, d' ∙ d, λ x. ((e' x).0 ∙ (e x).0, (e' x).1 ∙ (e x).1))

-- What holds of the result where a step goes on.
abbrev pub Ends : {A : Type 0} → (A → Type 0) → Outcome A → Type 0
Ends P (done a) = P a
Ends P panic = Unit
Ends P blocked = Unit

pub after-Quiet :
    {A : Type 0} (f : A → Hub) (h i : Hub) (r : Outcome A)
    → Quiet h i
    → Ends (λ a. Quiet i (f a)) r
    → Ends (λ a. Quiet h (f a)) r
after-Quiet f h i (done a) q p = Quiet-trans h i (f a) q p
after-Quiet f h i panic q p = tt
after-Quiet f h i blocked q p = tt

pub bind-Ends :
    {A B : Type 0} (P : A → Type 0) (Q : B → Type 0) (r : Outcome A) (f : A → Outcome B)
    → Ends P r
    → ((a : A) → P a → Ends Q (f a))
    → Ends Q (r >>= f)
bind-Ends P Q (done a) f p k = k a p
bind-Ends P Q panic f p k = tt
bind-Ends P Q blocked f p k = tt

-- A write to one object that keeps its owner and its channel's end is quiet.
write-Quiet :
    (c : ℕ) (v : Client) (h : Hub)
    → v.user_id ≡ (h.objects c).user_id
    → v.send_closed ≡ (h.objects c).send_closed
    → Quiet h (record h { objects = write h.objects c v })
write-Quiet c v h u o = (refl, refl, refl, refl, λ d. ground (arith, eqb_iff c d))

pub try_send-Quiet : (c : ℕ) (text : String) (h : Hub) → Ends (λ r. Quiet h r.0) (try_send c text h)
unfolding try_send
try_send-Quiet c text h = elim (Bool-cases (h.objects c).send_closed) [
  | inl closed ↦ rw closed tt
  | inr open_channel ↦ elim (Bool-cases (ltb (length (h.objects c).send) send_cap)) [
    | inl room ↦
        rw (open_channel, room)
          (write-Quiet c
            (record (h.objects c) { send = (h.objects c).send ++ text ∷ []; send_closed = false }) h
            refl (sym open_channel))
    | inr full ↦ rw (open_channel, full) (Quiet-refl h)
  ]
]

deliver-Quiet :
    (text : String) (cs : List ℕ) (t : Tally) (h : Hub)
    → Ends (λ r. Quiet h r.0) (deliver text cs t h)
unfolding deliver
deliver-Quiet text [] t h = Quiet-refl h
deliver-Quiet text (c ∷ cs) t h =
    bind-Ends _ _ (try_send c text h) _ (try_send-Quiet c text h) (λ r q.
      after-Quiet (λ x. x.0) h r.0 (deliver text cs (tally_up r.1 t) r.0) q
        (deliver-Quiet text cs (tally_up r.1 t) r.0))

module _ (marshal : InAppWsMessage → Result String) where
  deliver_to-Quiet :
      (cs : List ℕ) (r : Result String) (h : Hub) → Ends (Quiet h) (deliver_to marshal cs r h)
  unfolding deliver_to count_tally
  deliver_to-Quiet cs (err e) h = Quiet-refl h
  deliver_to-Quiet cs (ok text) h =
      bind-Ends _ _ (deliver text cs _ h) _ (deliver-Quiet text cs _ h) (λ r q. q)

  pub handle_broadcast-Quiet :
      (m : BroadcastMessage) (h : Hub) → Ends (Quiet h) (handle_broadcast marshal m h)
  unfolding handle_broadcast
  handle_broadcast-Quiet m h =
      let cs = members m.user_id h.clients in
      elim (Bool-cases (eqb (length cs) 0)) [
        | inl e ↦ rw e (Quiet-refl h)
        | inr e ↦ rw e (deliver_to-Quiet cs (marshal m.payload) h)
      ]

send_unregister-Quiet : (c : ℕ) (h : Hub) → Ends (Quiet h) (send_unregister c h)
unfolding send_unregister
send_unregister-Quiet c h = elim (Bool-cases (ltb (length h.unregister) unregister_cap)) [
  | inl room ↦ rw room (Quiet-refl h)
  | inr full ↦ rw full tt
]

close_conn-Quiet : (c : ℕ) (h : Hub) → Quiet h (close_conn c h)
unfolding close_conn
close_conn-Quiet c h = write-Quiet c (record (h.objects c) { conn_open = false }) h refl refl

crowd-Quiet : (ds : List ℕ) (h : Hub) → Quiet h (crowd ds h)
unfolding crowd
crowd-Quiet [] h = Quiet-refl h
crowd-Quiet (d ∷ ds) h = elim (Bool-cases (ltb (length h.unregister) unregister_cap)) [
  | inl room ↦ rw room (
      let queued = record h { unregister = h.unregister ++ d ∷ [] } in
      Quiet-trans h queued (crowd ds queued) (Quiet-refl h) (crowd-Quiet ds queued))
  | inr full ↦ rw full (Quiet-refl h)
]

unregister_all-Quiet :
    (others : ℕ → List ℕ) (cs : List ℕ) (h : Hub) → Ends (Quiet h) (unregister_all others cs h)
unfolding unregister_all
unregister_all-Quiet others [] h = Quiet-refl h
unregister_all-Quiet others (c ∷ cs) h =
    let crowded = crowd (others c) h in
    after-Quiet (λ j. j) h crowded _ (crowd-Quiet (others c) h)
      (bind-Ends _ _ (send_unregister c crowded) _ (send_unregister-Quiet c crowded) (λ i q.
        after-Quiet (λ j. j) crowded (close_conn c i) (unregister_all others cs (close_conn c i))
          (Quiet-trans crowded i (close_conn c i) q (close_conn-Quiet c i))
          (unregister_all-Quiet others cs (close_conn c i))))

pub handle_ping-Quiet :
    (others : ℕ → List ℕ) (now : ℕ) (h : Hub) → Ends (Quiet h) (handle_ping others now h)
unfolding handle_ping
handle_ping-Quiet others now h = unregister_all-Quiet others _ h

pub read_end-Quiet : (c : ℕ) (h : Hub) → Ends (Quiet h) (read_end c h)
unfolding read_end
read_end-Quiet c h =
    bind-Ends _ _ (send_unregister c h) _ (send_unregister-Quiet c h)
      (λ i q. Quiet-trans h i (close_conn c i) q (close_conn-Quiet c i))

module _ (type_of : String → Option String) (pong : ℕ → String) where
  pub read_text-Quiet :
      (now c : ℕ) (text : String) (h : Hub) → Ends (Quiet h) (read_text type_of pong now c text h)
  unfolding read_text seen
  read_text-Quiet now c text h = elim (Bool-cases (is_ping type_of pong (type_of text))) [
    | inl ping ↦ rw ping (
        bind-Ends _ _ (try_send c (pong now) (seen now c h)) _
          (after-Quiet (λ r. r.0) h (seen now c h) (try_send c (pong now) (seen now c h))
            (write-Quiet c (record (h.objects c) { last_seen = now }) h refl refl)
            (try_send-Quiet c (pong now) (seen now c h)))
          (λ r q. q))
    | inr other ↦ rw other (Quiet-refl h)
  ]

pub read_pong-Quiet : (now c : ℕ) (h : Hub) → Quiet h (read_pong now c h)
unfolding read_pong seen
read_pong-Quiet now c h = write-Quiet c (record (h.objects c) { last_seen = now }) h refl refl

pub write_round-Quiet :
    (c : ℕ) (written : Bool) (h : Hub) → Ends (λ r. Quiet h r.0) (write_round c written h)
unfolding write_round
write_round-Quiet c written h = elim (List-cases (h.objects c).send) [
  | inl e ↦ elim (Bool-cases (h.objects c).send_closed) [
    | inl closed ↦
        rw (e, write_round, closed)
          (write-Quiet c (record (h.objects c) { send_closed = true; conn_open = false }) h refl
            (sym closed))
    | inr open_channel ↦ rw (e, write_round, open_channel) tt
  ]
  | inr (text, rest, e) ↦
      let taken = record (h.objects c) { send = rest } in
      let i = record h { objects = write h.objects c taken } in
      elim (Bool-cases written) [
        | inl sent ↦ rw (e, write_round, sent) (write-Quiet c taken h refl refl)
        | inr failed ↦
            rw (e, write_round, failed)
              (Quiet-trans h i (close_conn c i) (write-Quiet c taken h refl refl)
                (close_conn-Quiet c i))
      ]
]

pub write_tick-Quiet : (c : ℕ) (written : Bool) (h : Hub) → Quiet h (write_tick c written h).0
unfolding write_tick
write_tick-Quiet c true h = Quiet-refl h
write_tick-Quiet c false h = close_conn-Quiet c h

pub notify_in_app_message-Quiet :
    (m : Option InAppWsMessage) (h : Hub) → Quiet h (notify_in_app_message m h).1
unfolding notify_in_app_message
notify_in_app_message-Quiet none h = Quiet-refl h
notify_in_app_message-Quiet (some m) h = elim (Bool-cases (m.user_id == "")) [
  | inl e ↦ rw e (Quiet-refl h)
  | inr e ↦ elim (Bool-cases (ltb (length h.new_in_app) in_app_cap)) [
    | inl room ↦ rw (e, room) (Quiet-refl h)
    | inr full ↦ rw (e, full) (Quiet-refl h)
  ]
]

enqueue_broadcast-Quiet :
    (user_id : String) (m : InAppWsMessage) (h : Hub) → Quiet h (enqueue_broadcast user_id m h)
unfolding enqueue_broadcast
enqueue_broadcast-Quiet user_id m h = elim (Bool-cases (ltb (length h.broadcast) broadcast_cap)) [
  | inl room ↦ rw room (Quiet-refl h)
  | inr full ↦ rw full (Quiet-refl h)
]

pub forward-Quiet : (h : Hub) → Quiet h (forward h)
unfolding forward
forward-Quiet h = elim (List-cases h.new_in_app) [
  | inl e ↦ rw e (Quiet-refl h)
  | inr (m, ms, e) ↦ rw e (enqueue_broadcast-Quiet m.user_id m (record h { new_in_app = ms }))
]
