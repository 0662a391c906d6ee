-- ===== src/Tests/HubRuns.antt =====
-- The hub: "ann" is connected once, by the connection 0; the connection 1 of "bob" is not registered yet.
use edu_learn_notification_s.Prelude.{
  ℕ, ◌+◌, ◌≤◌, ◌<◌, true, false, String, ◌≡◌, ◌≢◌, refl, List, [], ◌∷◌, ◌++◌, length, Option, some,
  arith, eqb, eqb_iff, eq_iff, if◌then◌else◌,
}
use edu_learn_notification_s.Errors.{Result, ok}
use edu_learn_notification_s.Notification.{InAppWsMessage}
use edu_learn_notification_s.Hub.{
  Hub, Client, done, panic, blocked, unregister_cap, handle_unregister, handle_broadcast,
  stale_clients, handle_ping, shutdown, get_metrics,
}
use edu_learn_notification_s.Hub.Groups.{members, has_user, size}
use edu_learn_notification_s.Hub.Invariant.{Inv, is_registered, handle_unregister-Inv}
use edu_learn_notification_s.Hub.Delivery.{Delivers, handle_broadcast-Delivers}
use edu_learn_notification_s.Hub.Stale.{queue, handle_ping-blocked}
use edu_learn_notification_s.Hub.Shutdown.{shutdown-get_metrics}
use edu_learn_notification_s.Hub.Pumps.{read_text}
use edu_learn_notification_s.Hub.Pumps.Registry.{read_text-panic}

abbrev client : String → Client
client user = record {
  user_id = user;
  send = [];
  send_closed = false;
  conn_open = true;
  last_seen = 0;
}

abbrev objects : ℕ → Client
objects c = if eqb c 0 then client "ann" else client "bob"

abbrev hub : Hub
hub = record {
  clients = ("ann", 0 ∷ []) ∷ [];
  objects = objects;
  next = 2;
  broadcast = [];
  register = 1 ∷ [];
  unregister = [];
  new_in_app = [];
  stopped = false;
  total_clients = 1;
  messages_sent = 0;
  messages_dropped = 0;
}

cons-ne-nil : ◌≢◌ {A = List ℕ} (0 ∷ []) []
cons-ne-nil = ground arith

hub-Inv : Inv hub
unfolding has_user members size
hub-Inv = record {
  tidy = (refl, (refl, tt), cons-ne-nil, tt);
  counted = refl;
  owned = λ u c m. ground (arith, eq_iff "ann" u, eqb_iff 0 c);
}

handle_unregister-Inv_example :
    (h' : Hub) × (handle_unregister 0 hub ≡ done h')
    × Inv h'
    × (is_registered 0 h' ≡ false)
    × (h'.total_clients + (if is_registered 0 hub then 1 else 0) ≡ 1)
handle_unregister-Inv_example = handle_unregister-Inv 0 hub hub-Inv

abbrev hello : InAppWsMessage
hello = record {
  type = "in-app";
  id = "n1";
  user_id = "ann";
  subject = "Hi";
  body = "Hello";
  recipient = "ann";
  is_read = false;
  created_at = "";
  priority = "";
  action_url = "";
  notification_type = "";
  metadata = [];
}

abbrev body_only : InAppWsMessage → Result String
body_only m = ok m.body

handle_broadcast-Delivers_example :
    Delivers "Hello"
      (0 ∷ [])
      hub
      (handle_broadcast body_only (record { user_id = "ann"; payload = hello }) hub)
unfolding members
handle_broadcast-Delivers_example =
    handle_broadcast-Delivers body_only (record { user_id = "ann"; payload = hello }) hub "Hello"
      hub-Inv refl

-- No reader but that of the connection itself ends meanwhile.
abbrev its_reader : ℕ → List ℕ
its_reader c = c ∷ []

handle_ping-blocked_example :
    let stale = stale_clients 7 objects hub.clients in
    (unregister_cap < 0 + length stale → handle_ping its_reader 7 hub ≡ blocked)
    × (0 + length (queue its_reader stale) ≤ unregister_cap
        → (h' : Hub) × (handle_ping its_reader 7 hub ≡ done h')
          × (h'.unregister ≡ [] ++ queue its_reader stale))
handle_ping-blocked_example = handle_ping-blocked its_reader 7 hub (omega arith)

shutdown-get_metrics_example :
    (h' : Hub) × (shutdown hub ≡ done h')
    × ((get_metrics h').unique_users ≡ 0)
    × ((get_metrics h').total_clients ≡ (get_metrics hub).total_clients)
shutdown-get_metrics_example = shutdown-get_metrics hub hub-Inv refl

abbrev type_of : String → Option String
type_of text = some "ping"

unregistered_hub : (h' : Hub) × (handle_unregister 0 hub ≡ done h')
unregistered_hub = let (h', e, v, r, t) = handle_unregister-Inv 0 hub hub-Inv in (h', e)

read_text-panic_example :
    (read_text type_of (λ now. "pong") 7 0 "{}" hub ≢ panic)
    × (read_text type_of (λ now. "pong") 8 0 "{}" unregistered_hub.0 ≡ panic)
unfolding members
read_text-panic_example =
    read_text-panic type_of (λ now. "pong") 7 8 0 "{}" hub unregistered_hub.0 hub-Inv refl refl
      unregistered_hub.1
