-- ===== src/Hub.antt =====
-- internal/interfaces/websocket/hub.go: the hub of the WebSocket connections. A `*Client` is a
-- number, and `objects` is the heap of the `Client` structs. A channel is the list of what it holds,
-- oldest first, with its capacity. The hub's goroutine handles one event at a time, so that a handler
-- is a function of the hub; the mutex has no part in it. `json.Marshal` is the parameter `marshal`.
pub mod Groups
pub mod Invariant
pub mod Delivery
pub mod Stale
pub mod Shutdown
pub mod Pumps
pub mod Auth
pub mod Quiet
pub mod Live
pub mod Loop
pub mod Private
use edu_learn_notification_s.Prelude.{
  ℕ, zero, suc, ◌+◌, ◌-◌, ◌*◌, ◌/◌, Bool, true, false, ◌||◌, String, List, [], ◌∷◌, ◌++◌, Option,
  none, some, length, ltb, eqb, ◌==◌, if◌then◌else◌,
}
use edu_learn_notification_s.Errors.{Result, ok, err, new}
use edu_learn_notification_s.Otp.{second}
use edu_learn_notification_s.Notification.{InAppWsMessage}
use Groups.{ClientMap}

abbrev pong_wait : ℕ
pong_wait = 60 * second

abbrev ping_period : ℕ
ping_period = (pong_wait * 9) / 10

abbrev pub broadcast_cap : ℕ
broadcast_cap = 512

abbrev pub register_cap : ℕ
register_cap = 64

abbrev pub unregister_cap : ℕ
unregister_cap = 64

abbrev pub in_app_cap : ℕ
in_app_cap = 1024

abbrev pub send_cap : ℕ
send_cap = 256

-- A step of a goroutine: it goes on, it panics (a send on or a close of a closed channel), or it
-- waits on a full channel for another goroutine.
pub data Outcome {ℓ} (A : Type ℓ) : Type ℓ where
  done : A → Outcome A
  panic : Outcome A
  blocked : Outcome A

module _ {A B : Type 0} where
  infixl 5 ◌>>=◌
  abbrev pub ◌>>=◌ : Outcome A → (A → Outcome B) → Outcome B
  panic >>= next = panic
  blocked >>= next = blocked
  done value >>= next = next value

pub record Client : Type 0 where
  pub user_id : String
  pub send : List String
  pub send_closed : Bool
  pub conn_open : Bool
  pub last_seen : ℕ

pub record BroadcastMessage : Type 0 where
  pub user_id : String
  pub payload : InAppWsMessage

pub record Hub : Type 0 where
  pub clients : ClientMap
  pub objects : ℕ → Client
  pub next : ℕ
  pub broadcast : List BroadcastMessage
  pub register : List ℕ
  pub unregister : List ℕ
  pub new_in_app : List InAppWsMessage
  pub stopped : Bool
  pub total_clients : ℕ
  pub messages_sent : ℕ
  pub messages_dropped : ℕ

-- A write to one object of the heap.
abbrev pub write : (ℕ → Client) → ℕ → Client → ℕ → Client
write objects c v d = if eqb c d then v else objects d

-- close(client.send)
pub close_send : ℕ → Hub → Outcome Hub
close_send c h =
    if (h.objects c).send_closed
    then panic
    else done
        (record h { objects = write h.objects c (record (h.objects c) { send_closed = true }) })

-- `select { case client.send <- data: … default: … }`: whether the message was taken.
unfoldable pub try_send : ℕ → String → Hub → Outcome (Hub × Bool)
try_send c text h =
    let client = h.objects c in
    if client.send_closed
    then panic
    else if ltb (length client.send) send_cap
    then done (
      record h { objects = write h.objects c (record client { send = client.send ++ text ∷ [] }) },
      true,
    )
    else done (h, false)

-- func (h *Hub) handleRegister(client *Client)
unfoldable pub handle_register : ℕ → Hub → Hub
handle_register c h =
    let user = (h.objects c).user_id in
    record h {
      clients = Groups.put user (Groups.insert c (Groups.members user h.clients)) h.clients;
      total_clients = h.total_clients + 1;
    }

-- `if len(clients) == 0 { delete(h.clients, userID) }`, with the set that is left
pub without : String → List ℕ → ClientMap → ClientMap
without user rest gs = if eqb (length rest) 0 then Groups.erase user gs else Groups.put user rest gs

-- The set without the connection, and the user gone with the last one.
pub drop_client : String → ℕ → Hub → Hub
unfolding without
drop_client user c h = record h {
  clients = without user (Groups.remove c (Groups.members user h.clients)) h.clients;
  total_clients = h.total_clients - 1;
}

-- func (h *Hub) handleUnregister(client *Client)
pub handle_unregister : ℕ → Hub → Outcome Hub
handle_unregister c h =
    let user = (h.objects c).user_id in
    if Groups.contains c (Groups.members user h.clients)
    then (do h' ← close_send c h; done (drop_client user c h'))
    else done h

pub record Tally : Type 0 where
  pub sent : ℕ
  pub dropped : ℕ

-- `sent++` or `dropped++`
abbrev pub tally_up : Bool → Tally → Tally
tally_up true t = record t { sent = t.sent + 1 }
tally_up false t = record t { dropped = t.dropped + 1 }

-- The loop over the clients of a broadcast.
pub deliver : String → List ℕ → Tally → Hub → Outcome (Hub × Tally)
deliver text [] t h = done (h, t)
deliver text (c ∷ cs) t h = do
  (h', taken) ← try_send c text h
  deliver text cs (tally_up taken t) h'

count_tally : Hub × Tally → Hub
count_tally (h, t) = record h {
  messages_sent = h.messages_sent + t.sent;
  messages_dropped = h.messages_dropped + t.dropped;
}

module _ (marshal : InAppWsMessage → Result String) where
  deliver_to : List ℕ → Result String → Hub → Outcome Hub
  unfolding count_tally
  deliver_to cs (err e) h = done h
  deliver_to cs (ok text) h = do
    r ← deliver text cs (record { sent = 0; dropped = 0 }) h
    done (count_tally r)

  -- func (h *Hub) handleBroadcast(message *BroadcastMessage)
  pub handle_broadcast : BroadcastMessage → Hub → Outcome Hub
  unfolding deliver_to
  handle_broadcast m h =
      let cs = Groups.members m.user_id h.clients in
      if eqb (length cs) 0 then done h else deliver_to cs (marshal m.payload) h

-- client.lastSeen.Before(time.Now().Add(-2 * pongWait))
unfoldable is_stale : ℕ → Client → Bool
is_stale now client = ltb (client.last_seen + 2 * pong_wait) now

stale_in : ℕ → (ℕ → Client) → List ℕ → List ℕ
stale_in now objects [] = []
stale_in now objects (c ∷ cs) =
    let rest = stale_in now objects cs in if is_stale now (objects c) then c ∷ rest else rest

pub stale_clients : ℕ → (ℕ → Client) → ClientMap → List ℕ
unfolding stale_in
stale_clients now objects [] = []
stale_clients now objects ((u, cs) ∷ gs) = stale_in now objects cs ++ stale_clients now objects gs

-- `h.unregister <- client`: a full channel makes the sender wait.
pub send_unregister : ℕ → Hub → Outcome Hub
send_unregister c h =
    if ltb (length h.unregister) unregister_cap
    then done (record h { unregister = h.unregister ++ c ∷ [] })
    else blocked

pub close_conn : ℕ → Hub → Hub
close_conn c h = record h {
  objects = write h.objects c (record (h.objects c) { conn_open = false });
}

-- Readers that end send their connections to the channel too, as long as it has room; those of the
-- connections that handlePing closes do so while its loop goes on.
unfoldable pub crowd : List ℕ → Hub → Hub
crowd [] h = h
crowd (d ∷ ds) h =
    let more = crowd ds (record h { unregister = h.unregister ++ d ∷ [] }) in
    if ltb (length h.unregister) unregister_cap then more else h

-- The loop of handlePing, `others c` the connections whose readers are through before `c` is sent.
pub unregister_all : (ℕ → List ℕ) → List ℕ → Hub → Outcome Hub
unfolding close_conn crowd
unregister_all others [] h = done h
unregister_all others (c ∷ cs) h = do
  h' ← send_unregister c (crowd (others c) h)
  unregister_all others cs (close_conn c h')

-- func (h *Hub) handlePing()
pub handle_ping : (ℕ → List ℕ) → ℕ → Hub → Outcome Hub
handle_ping others now h = unregister_all others (stale_clients now h.objects h.clients) h

-- func (h *Hub) Broadcast(userID string, payload interface{}): a full channel drops the message.
unfoldable pub enqueue_broadcast : String → InAppWsMessage → Hub → Hub
enqueue_broadcast user_id payload h =
    if ltb (length h.broadcast) broadcast_cap
    then record h {
      broadcast = h.broadcast ++ record { user_id = user_id; payload = payload } ∷ [];
    }
    else h

-- A round of startKafkaSubscriberForwarder.
unfoldable pub forward : Hub → Hub
forward h = elim h.new_in_app [
  | [] ↦ h
  | m ∷ ms ↦ enqueue_broadcast m.user_id m (record h { new_in_app = ms })
]

-- func (h *Hub) NotifyInAppMessage(msg *entity.InAppWSMessage) error
unfoldable pub notify_in_app_message : Option InAppWsMessage → Hub → Result (Unit {0}) × Hub
notify_in_app_message none h = (err (new "missing user ID in in-app ws message"), h)
notify_in_app_message (some m) h =
    if m.user_id == ""
    then (err (new "missing user ID in in-app ws message"), h)
    else if ltb (length h.new_in_app) in_app_cap
    then (ok tt, record h { new_in_app = h.new_in_app ++ m ∷ [] })
    else (err (new "notify in-app channel full"), h)

pub record Metrics : Type 0 where
  pub total_clients : ℕ
  pub unique_users : ℕ
  pub messages_sent : ℕ
  pub messages_dropped : ℕ

-- func (h *Hub) GetMetrics() map[string]interface{}
pub get_metrics : Hub → Metrics
get_metrics h = record {
  total_clients = h.total_clients;
  unique_users = length h.clients;
  messages_sent = h.messages_sent;
  messages_dropped = h.messages_dropped;
}

close_all : List ℕ → Hub → Outcome Hub
unfolding close_conn
close_all [] h = done h
close_all (c ∷ cs) h = do h' ← close_send c h; close_all cs (close_conn c h')

close_groups : ClientMap → Hub → Outcome Hub
unfolding close_all
close_groups [] h = done h
close_groups ((u, cs) ∷ gs) h = do h' ← close_all cs h; close_groups gs h'

-- func (h *Hub) Shutdown(ctx context.Context) error: `close(h.stopCh)` panics the second time.
pub shutdown : Hub → Outcome Hub
unfolding close_groups
shutdown h = if h.stopped then panic else do
  h' ← close_groups h.clients (record h { stopped = true })
  done (record h' { clients = [] })
