-- ===== src/Hub/Pumps.antt =====
-- The goroutines of a connection, and the handler that accepts it: the second half of hub.go. A text
-- from the client is a string; `type_of` is the `type` that `json.Unmarshal` finds in it, `none` where
-- it fails; `pong` is the encoded answer at a time.
pub mod Registry
use edu_learn_notification_s.Prelude.{
  ℕ, suc, ◌+◌, Bool, true, false, String, ◌≡◌, List, [], ◌∷◌, ◌++◌, Option, none, some, length, ltb,
  eqb, ◌==◌, if◌then◌else◌,
}
use edu_learn_notification_s.Errors.{Result, ok, err}
use edu_learn_notification_s.Hub.{
  Hub, Client, Outcome, done, panic, blocked, register_cap, write, try_send, send_unregister,
  close_conn, handle_register, handle_unregister, ◌>>=◌,
}

pub data Response : Type 0 where
  unauthorized upgrade_failed : Response
  connected : ℕ → Response

unfoldable pub new_client : ℕ → String → Client
new_client now user_id = record {
  user_id = user_id;
  send = [];
  send_closed = false;
  conn_open = true;
  last_seen = now;
}

-- The client is allocated, and sent to the hub; a full channel makes the request wait.
unfoldable pub accept : ℕ → String → Hub → Outcome (Hub × Response)
unfolding new_client
accept now user_id h =
    if ltb (length h.register) register_cap
    then done (
      record h {
        objects = write h.objects h.next (new_client now user_id);
        next = h.next + 1;
        register = h.register ++ h.next ∷ [];
      },
      connected h.next,
    )
    else blocked

-- func (h *Hub) ServeWS(auth ws.AuthFunc) http.HandlerFunc: `upgraded` tells whether the upgrade of the
-- connection succeeded.
unfoldable pub serve_ws : ℕ → Result String → Bool → Hub → Outcome (Hub × Response)
unfolding accept
serve_ws now (err e) upgraded h = done (h, unauthorized)
serve_ws now (ok user_id) upgraded h =
    if user_id == ""
    then done (h, unauthorized)
    else if upgraded
    then accept now user_id h
    else done (h, upgrade_failed)

unfoldable pub seen : ℕ → ℕ → Hub → Hub
seen now c h = record h { objects = write h.objects c (record (h.objects c) { last_seen = now }) }

module _ (type_of : String → Option String) (pong : ℕ → String) where
  unfoldable pub is_ping : Option String → Bool
  is_ping none = false
  is_ping (some t) = t == "ping"

  -- A text that readPump has read.
  unfoldable pub read_text : ℕ → ℕ → String → Hub → Outcome Hub
  unfolding is_ping seen
  read_text now c text h =
      if is_ping (type_of text)
      then (do (h', taken) ← try_send c (pong now) (seen now c h); done h')
      else done h

-- The pong handler that readPump sets.
unfoldable pub read_pong : ℕ → ℕ → Hub → Hub
unfolding seen
read_pong now c h = seen now c h

-- The end of readPump, after an error of the socket.
unfoldable pub read_end : ℕ → Hub → Outcome Hub
unfolding close_conn
read_end c h = do h' ← send_unregister c h; done (close_conn c h')

-- What writePump puts on the socket.
pub data Wire : Type 0 where
  text_message : String → Wire
  close_message ping_message : Wire

pub data Pump : Type 0 where
  goes_on stops : Pump

-- A round of writePump that takes from the send channel: `written` tells whether the write succeeds.
-- With nothing to take and the channel open it waits.
unfoldable pub write_round : ℕ → Bool → Hub → Outcome (Hub × List Wire × Pump)
unfolding close_conn
write_round c written h =
    let client = h.objects c in
    elim client.send [
      | [] ↦
          if client.send_closed then done (close_conn c h, close_message ∷ [], stops) else blocked
      | text ∷ rest ↦
          let h' = record h { objects = write h.objects c (record client { send = rest }) } in
          if written
          then done (h', text_message text ∷ [], goes_on)
          else done (close_conn c h', [], stops)
    ]

-- A round of writePump on its ticker.
unfoldable pub write_tick : ℕ → Bool → Hub → Hub × List Wire × Pump
unfolding close_conn
write_tick c written h =
    if written then (h, ping_message ∷ [], goes_on) else (close_conn c h, [], stops)
