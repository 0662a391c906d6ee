-- ===== src/Hub/Delivery.antt =====
-- What a broadcast delivers.
use edu_learn_notification_s.Prelude.{
  ℕ, ◌+◌, Bool, true, false, String, ◌≡◌, ◌∙◌, refl, List, [], ◌∷◌, ◌++◌, length, arith, eqb,
  eqb_iff, ltb, if◌then◌else◌,
}
use edu_learn_notification_s.Errors.{Result, ok}
use edu_learn_notification_s.Notification.{InAppWsMessage}
use edu_learn_notification_s.Hub.Groups.{Distinct, contains, members, members-Distinct}
use edu_learn_notification_s.Hub.{
  Hub, Client, BroadcastMessage, Tally, Outcome, done, send_cap, write, try_send, deliver,
  deliver_to, count_tally, tally_up, handle_broadcast,
}
use edu_learn_notification_s.Hub.Invariant.{Inv}

-- A client offered a message: it is queued last if the buffer has room.
abbrev has_room : Client → Bool
has_room client = ltb (length client.send) send_cap

abbrev offer : String → Client → Client
offer text client =
    if has_room client then record client { send = client.send ++ text ∷ [] } else client

offer_at : String → ℕ → (ℕ → Client) → ℕ → Client
offer_at text c o =
    if has_room (o c) then write o c (record (o c) { send = (o c).send ++ text ∷ [] }) else o

offer_all : String → List ℕ → (ℕ → Client) → ℕ → Client
offer_all text [] o = o
offer_all text (c ∷ cs) o = offer_all text cs (offer_at text c o)

tally_all : String → List ℕ → (ℕ → Client) → Tally → Tally
tally_all text [] o t = t
tally_all text (c ∷ cs) o t = tally_all text cs (offer_at text c o) (tally_up (has_room (o c)) t)

-- How many of the clients have room.
pub count_room : List ℕ → (ℕ → Client) → ℕ
count_room [] o = 0
count_room (c ∷ cs) o = (if has_room (o c) then 1 else 0) + count_room cs o

offer_at-point :
    (text : String) (c d : ℕ) (o : ℕ → Client)
    → offer_at text c o d ≡ (if eqb c d then offer text (o d) else o d)
unfolding offer_at
offer_at-point text c d o = ground (arith, eqb_iff c d)

offer_at-open :
    (text : String) (c d : ℕ) (o : ℕ → Client)
    → (offer_at text c o d).send_closed ≡ (o d).send_closed
unfolding offer_at
offer_at-open text c d o = ground (arith, eqb_iff c d)

try_send_open :
    (text : String) (c : ℕ) (h : Hub)
    → (h.objects c).send_closed ≡ false
    → try_send c text h
      ≡ done (record h { objects = offer_at text c h.objects }, has_room (h.objects c))
unfolding try_send offer_at
try_send_open text c h e = ground arith

deliver_lem :
    (text : String) (cs : List ℕ) (t : Tally) (h : Hub)
    → ((c : ℕ) → contains c cs ≡ true → (h.objects c).send_closed ≡ false)
    → deliver text cs t h
      ≡ done (record h { objects = offer_all text cs h.objects }, tally_all text cs h.objects t)
unfolding deliver offer_all tally_all
deliver_lem text [] t h p = refl
deliver_lem text (c ∷ cs) t h p = rw (try_send_open text c h (p c (ground (arith, eqb_iff c c)))) (
    deliver_lem text cs (tally_up (has_room (h.objects c)) t)
      (record h { objects = offer_at text c h.objects })
      (λ d m. offer_at-open text c d h.objects ∙ p d (ground arith)))

offer_all-point :
    (text : String) (cs : List ℕ) (o : ℕ → Client) (d : ℕ)
    → Distinct cs
    → offer_all text cs o d ≡ (if contains d cs then offer text (o d) else o d)
unfolding offer_all
offer_all-point text [] o d h = refl
offer_all-point text (c ∷ cs) o d h = ground (
  arith,
  offer_all-point text cs (offer_at text c o) d h.1,
  offer_at-point text c d o,
  eqb_iff c d,
)

count_room-offer :
    (text : String) (c : ℕ) (cs : List ℕ) (o : ℕ → Client)
    → contains c cs ≡ false
    → count_room cs (offer_at text c o) ≡ count_room cs o
unfolding count_room
count_room-offer text c [] o h = refl
count_room-offer text c (d ∷ cs) o h =
    ground
      (arith, count_room-offer text c cs o, offer_at-point text c d o, eqb_iff c d, eqb_iff d c)

tally_all_lem :
    (text : String) (cs : List ℕ) (o : ℕ → Client) (t : Tally)
    → Distinct cs
    → ((tally_all text cs o t).sent ≡ t.sent + count_room cs o)
      × ((tally_all text cs o t).sent + (tally_all text cs o t).dropped
          ≡ t.sent + t.dropped + length cs)
unfolding tally_all count_room
tally_all_lem text [] o t h = omega arith
tally_all_lem text (c ∷ cs) o t h = ground (
  arith,
  tally_all_lem text cs (offer_at text c o) (tally_up true t) h.1,
  tally_all_lem text cs (offer_at text c o) (tally_up false t) h.1,
  count_room-offer text c cs o h.0,
)

offer_all-open :
    (text : String) (cs : List ℕ) (o : ℕ → Client) (d : ℕ)
    → ((offer_all text cs o d).send_closed ≡ (o d).send_closed)
      × ((offer_all text cs o d).user_id ≡ (o d).user_id)
unfolding offer_all offer_at
offer_all-open text [] o d = (refl, refl)
offer_all-open text (c ∷ cs) o d =
    ground (arith, offer_all-open text cs (unfold offer_at in offer_at text c o) d, eqb_iff c d)

-- What a broadcast of a text to the connections `cs` makes of a hub.
abbrev pub Delivers : String → List ℕ → Hub → Outcome Hub → Type 0
Delivers text cs h r =
    (h' : Hub) × (r ≡ done h')
    × Inv h'
    × ((d : ℕ) → h'.objects d ≡ (if contains d cs then offer text (h.objects d) else h.objects d))
    × (h'.messages_sent ≡ h.messages_sent + count_room cs h.objects)
    × (h'.messages_sent + h'.messages_dropped ≡ h.messages_sent + h.messages_dropped + length cs)

delivered : String → List ℕ → Hub → Hub
unfolding count_tally
delivered text cs h = count_tally (
  record h { objects = offer_all text cs h.objects },
  tally_all text cs h.objects (record { sent = 0; dropped = 0 }),
)

delivered-Inv : (text : String) (cs : List ℕ) (h : Hub) → Inv h → Inv (delivered text cs h)
unfolding delivered
delivered-Inv text cs h v = record {
  tidy = v.tidy;
  counted = v.counted;
  owned = λ u c m. ground (arith, offer_all-open text cs h.objects c, v.owned u c);
}

broadcast-Delivers :
    (marshal : InAppWsMessage → Result String) (cs : List ℕ) (h : Hub) (text : String)
    → Inv h
    → Distinct cs
    → ((c : ℕ) → contains c cs ≡ true → (h.objects c).send_closed ≡ false)
    → Delivers text cs h (if eqb (length cs) 0 then done h else deliver_to marshal cs (ok text) h)
unfolding deliver_to delivered count_room
broadcast-Delivers marshal [] h text v d p = (h, refl, v, λ d. refl, omega arith, omega arith)
broadcast-Delivers marshal (c ∷ cs) h text v d p =
    let tally = tally_all_lem text (c ∷ cs) h.objects (record { sent = 0; dropped = 0 }) d in
    (
      delivered text (c ∷ cs) h,
      ground (arith, deliver_lem text (c ∷ cs) (record { sent = 0; dropped = 0 }) h p),
      delivered-Inv text (c ∷ cs) h v,
      λ x. offer_all-point text (c ∷ cs) h.objects x d,
      omega (arith, tally),
      omega (arith, tally),
    )

-- Broadcasting a message that can be encoded never panics and keeps the registry in order. Every
-- connection of the user, and no other, is offered the text: it is put last in a buffer that has room,
-- and a full buffer stays as it is. The count of sent messages grows by the number of the user's
-- connections that had room, and both counts together by the number of the user's connections.
pub handle_broadcast-Delivers :
    (marshal : InAppWsMessage → Result String) (m : BroadcastMessage) (h : Hub) (text : String)
    → Inv h
    → marshal m.payload ≡ ok text
    → Delivers text (members m.user_id h.clients) h (handle_broadcast marshal m h)
unfolding handle_broadcast
handle_broadcast-Delivers marshal m h text v e = rw e (
    broadcast-Delivers marshal (members m.user_id h.clients) h text v
      (members-Distinct m.user_id h.clients v.tidy) (λ c k. (v.owned m.user_id c k).1))
