-- ===== src/Hub/Loop.antt =====
-- The hub, its connections and its clients together, over all interleavings: hub.go's `run` takes one
-- event at a time, and the goroutines of the connections step between its events.
use edu_learn_notification_s.Prelude.{
  ℕ, Bool, false, String, ◌≡◌, subst, List, [], ◌∷◌, Option, arith,
}
use edu_learn_notification_s.Errors.{Result}
use edu_learn_notification_s.Notification.{InAppWsMessage}
use edu_learn_notification_s.Hub.Groups.{members, size}
use edu_learn_notification_s.Hub.{
  Hub, Client, BroadcastMessage, Outcome, done, handle_register, handle_unregister,
  handle_broadcast, handle_ping, forward, notify_in_app_message,
}
use edu_learn_notification_s.Hub.Pumps.{
  Response, serve_ws, read_end, read_text, read_pong, write_round, write_tick, Wire, Pump,
}
use edu_learn_notification_s.Hub.Quiet.{
  Quiet, Quiet-refl, after-Quiet, Ends, handle_broadcast-Quiet, handle_ping-Quiet, read_end-Quiet,
  read_text-Quiet, read_pong-Quiet, write_round-Quiet, write_tick-Quiet,
  notify_in_app_message-Quiet, forward-Quiet,
}
use edu_learn_notification_s.Hub.Live.{
  Live, Quiet-Live, take_register-Live, take_unregister-Live, serve_ws-Live,
}

-- func NewHub(logger ports.LoggerService) ports.WsHubAdaptor, over a heap with no client of the hub.
unfoldable pub new_hub : (ℕ → Client) → Hub
new_hub objects = record {
  clients = [];
  objects = objects;
  next = 0;
  broadcast = [];
  register = [];
  unregister = [];
  new_in_app = [];
  stopped = false;
  total_clients = 0;
  messages_sent = 0;
  messages_dropped = 0;
}

pub new_hub-Live : (objects : ℕ → Client) → Live (new_hub objects)
unfolding new_hub members size
new_hub-Live objects = ground arith

module _ (marshal : InAppWsMessage → Result String) (type_of : String → Option String)
    (pong : ℕ → String) where
  -- One step of one goroutine: a request that is let in or turned away, an event of the hub's loop,
  -- a message from Kafka, or a round of a connection's reader or writer. A check of stale connections is
  -- one step, in which other readers may end; one send of its loop alone is the same change as the end of a
  -- reader, `reader_ends`. A call that panics or waits is no step, and the shutdown is left out.
  pub data Step : Hub → Hub → Type 0 where
    serves :
        {h h' : Hub} (now : ℕ) (auth : Result String) (upgraded : Bool) (r : Response)
        → serve_ws now auth upgraded h ≡ done (h', r)
        → Step h h'
    registers :
        {h : Hub} (c : ℕ) (rest : List ℕ)
        → h.register ≡ c ∷ rest
        → Step h (handle_register c (record h { register = rest }))
    unregisters :
        {h h' : Hub} (c : ℕ) (rest : List ℕ)
        → h.unregister ≡ c ∷ rest
        → handle_unregister c (record h { unregister = rest }) ≡ done h'
        → Step h h'
    broadcasts :
        {h h' : Hub} (m : BroadcastMessage) (rest : List BroadcastMessage)
        → h.broadcast ≡ m ∷ rest
        → handle_broadcast marshal m (record h { broadcast = rest }) ≡ done h'
        → Step h h'
    pings :
        {h h' : Hub} (others : ℕ → List ℕ) (now : ℕ)
        → handle_ping others now h ≡ done h'
        → Step h h'
    notifies : {h : Hub} (m : Option InAppWsMessage) → Step h (notify_in_app_message m h).1
    forwards : {h : Hub} → Step h (forward h)
    reads :
        {h h' : Hub} (now c : ℕ) (text : String)
        → read_text type_of pong now c text h ≡ done h'
        → Step h h'
    hears : {h : Hub} (now c : ℕ) → Step h (read_pong now c h)
    writes :
        {h h' : Hub} (c : ℕ) (written : Bool) (out : List Wire) (pump : Pump)
        → write_round c written h ≡ done (h', out, pump)
        → Step h h'
    ticks : {h : Hub} (c : ℕ) (written : Bool) → Step h (write_tick c written h).0
    reader_ends : {h h' : Hub} (c : ℕ) → read_end c h ≡ done h' → Step h h'

  pub data Steps : Hub → Hub → Type 0 where
    no_step : {h : Hub} → Steps h h
    then_step : {h i j : Hub} → Steps h i → Step i j → Steps h j

  Ends-Live : (h h' : Hub) (r : Outcome Hub) → Live h → r ≡ done h' → Ends (Quiet h) r → Live h'
  Ends-Live h h' r v e q = Quiet-Live h h' (subst (Ends (Quiet h)) e q) v

  pub Step-Live : (h h' : Hub) → Step h h' → Live h → Live h'
  Step-Live h h' (serves now auth upgraded r e) v =
      subst (Ends (λ x. Live x.0)) e (serve_ws-Live now auth upgraded h v)
  Step-Live h h' (registers c rest e) v = take_register-Live c rest h e v
  Step-Live h h' (unregisters c rest e d) v = subst (Ends Live) d (take_unregister-Live c rest h v)
  Step-Live h h' (broadcasts m rest e d) v = Ends-Live h h' _ v d (
      after-Quiet (λ j. j) h (record h { broadcast = rest }) _ (Quiet-refl h)
        (handle_broadcast-Quiet marshal m (record h { broadcast = rest })))
  Step-Live h h' (pings others now e) v = Ends-Live h h' _ v e (handle_ping-Quiet others now h)
  Step-Live h h' (notifies m) v = Quiet-Live h h' (notify_in_app_message-Quiet m h) v
  Step-Live h h' forwards v = Quiet-Live h h' (forward-Quiet h) v
  Step-Live h h' (reads now c text e) v =
      Ends-Live h h' _ v e (read_text-Quiet type_of pong now c text h)
  Step-Live h h' (hears now c) v = Quiet-Live h h' (read_pong-Quiet now c h) v
  Step-Live h h' (writes c written out pump e) v =
      Quiet-Live h h' (subst (Ends (λ r. Quiet h r.0)) e (write_round-Quiet c written h)) v
  Step-Live h h' (ticks c written) v = Quiet-Live h h' (write_tick-Quiet c written h) v
  Step-Live h h' (reader_ends c e) v = Ends-Live h h' _ v e (read_end-Quiet c h)

  Steps-keeps : (h h' : Hub) → Steps h h' → Live h → Live h'
  Steps-keeps h h' no_step v = v
  Steps-keeps h h' (then_step {i = i} s t) v = Step-Live i h' t (Steps-keeps h i s v)

  -- In every interleaving of the goroutines' steps that starts at a new hub, without a shutdown and with
  -- no panic so far: the registry is in order (no connection twice, each under its own user with its
  -- channel open) and the count of the connections is right; every registered connection has an address
  -- below the next free one; and a connection that waits to be registered waits once, is not registered,
  -- and its channel is open.
  pub Steps-Live : (objects : ℕ → Client) (h : Hub) → Steps (new_hub objects) h → Live h
  Steps-Live objects h s = Steps-keeps (new_hub objects) h s (new_hub-Live objects)
