-- ===== src/Tests/LoopRuns.antt =====
-- A run of the hub in which a client connects, is registered, and pings.
use edu_learn_notification_s.Prelude.{ℕ, String, ◌≡◌, refl, [], ◌∷◌, Option, some, true, false}
use edu_learn_notification_s.Errors.{Result, ok}
use edu_learn_notification_s.Notification.{InAppWsMessage}
use edu_learn_notification_s.Hub.{Hub, Client, done, write, handle_register, try_send}
use edu_learn_notification_s.Hub.Pumps.{
  connected, new_client, serve_ws, accept, read_pong, read_text, is_ping, seen, write_round,
  text_message, Pump,
}
use edu_learn_notification_s.Hub.Private.Wires.{WiresFor, Steps-write_round}
use edu_learn_notification_s.Hub.Live.{Live}
use edu_learn_notification_s.Hub.Loop.{
  new_hub, Steps, no_step, then_step, serves, registers, hears, reads, Steps-Live,
}

abbrev body_of : InAppWsMessage → Result String
body_of m = ok m.body

abbrev kind_of : String → Option String
kind_of text = some text

abbrev pong_at : ℕ → String
pong_at now = "pong"

abbrev nobody : ℕ → Client
nobody c = record { user_id = ""; send = []; send_closed = false; conn_open = false; last_seen = 0 }

abbrev joined : Hub
joined = record (new_hub nobody) {
  objects = write nobody 0 (new_client 5 "ann");
  next = 1;
  register = 0 ∷ [];
}

abbrev registered : Hub
registered = handle_register 0 (record joined { register = [] })

one_client : Steps body_of kind_of pong_at (new_hub nobody) (read_pong 7 0 registered)
unfolding new_hub serve_ws accept new_client
one_client =
    then_step
      (then_step (then_step no_step (serves 5 (ok "ann") true (connected 0) refl))
        (registers 0 [] refl))
      (hears 7 0)

Steps-Live_example : Live (read_pong 7 0 registered)
Steps-Live_example = Steps-Live body_of kind_of pong_at nobody (read_pong 7 0 registered) one_client

abbrev seen_at_8 : Hub
seen_at_8 = record registered {
  objects = write registered.objects 0 (record (registered.objects 0) { last_seen = 8 });
}

abbrev ponged : Hub
ponged = record seen_at_8 {
  objects = write seen_at_8.objects 0 (record (seen_at_8.objects 0) { send = "pong" ∷ [] });
}

one_ping : Steps body_of kind_of pong_at (new_hub nobody) ponged
unfolding new_hub serve_ws accept new_client handle_register read_text is_ping try_send seen
one_ping =
    then_step
      (then_step (then_step no_step (serves 5 (ok "ann") true (connected 0) refl))
        (registers 0 [] refl))
      (reads 8 0 "ping" refl)

abbrev written_out : Hub
written_out = record ponged {
  objects = write ponged.objects 0 (record (ponged.objects 0) { send = [] });
}

one_write : write_round 0 true ponged ≡ done (written_out, text_message "pong" ∷ [], Pump.goes_on)
unfolding new_hub new_client handle_register write_round
one_write = refl

Steps-write_round_example :
    WiresFor body_of pong_at (ponged.objects 0).user_id (text_message "pong" ∷ [])
Steps-write_round_example =
    Steps-write_round body_of pong_at kind_of nobody (λ c. refl) ponged written_out 0 true
      (text_message "pong" ∷ []) Pump.goes_on one_ping one_write
