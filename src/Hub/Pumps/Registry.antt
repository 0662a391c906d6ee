-- ===== src/Hub/Pumps/Registry.antt =====
-- The pumps and the registry: who may still write to a connection's channel.
use edu_learn_notification_s.Prelude.{
  ℕ, true, false, String, ◌≡◌, ◌≢◌, Option, some, arith, eqb_iff,
}
use edu_learn_notification_s.Hub.{
  Hub, done, panic, close_send, try_send, handle_unregister, drop_client,
}
use edu_learn_notification_s.Hub.Invariant.{Inv, is_registered}
use edu_learn_notification_s.Hub.Pumps.{read_text}

module _ (type_of : String → Option String) (pong : ℕ → String) where
  read_closed :
      (now c : ℕ) (text : String) (h : Hub)
      → type_of text ≡ some "ping"
      → (h.objects c).send_closed ≡ true
      → read_text type_of pong now c text h ≡ panic
  unfolding read_text try_send
  read_closed now c text h e closed = rw e (ground (arith, eqb_iff c c))

  read_open :
      (now c : ℕ) (text : String) (h : Hub)
      → type_of text ≡ some "ping"
      → (h.objects c).send_closed ≡ false
      → read_text type_of pong now c text h ≢ panic
  unfolding read_text try_send
  read_open now c text h e closed = rw e (ground (arith, eqb_iff c c))

  unregister_closes :
      (c : ℕ) (h h' : Hub)
      → is_registered c h ≡ true
      → handle_unregister c h ≡ done h'
      → (h'.objects c).send_closed ≡ true
  unfolding handle_unregister close_send drop_client
  unregister_closes c h h' m u = ground (arith, eqb_iff c c)

  -- A "ping" that readPump handles once the hub has unregistered its connection brings the process down
  -- by a send on a closed channel; while the connection is registered it does not.
  pub read_text-panic :
      (now later c : ℕ) (text : String) (h h' : Hub)
      → Inv h
      → is_registered c h ≡ true
      → type_of text ≡ some "ping"
      → handle_unregister c h ≡ done h'
      → (read_text type_of pong now c text h ≢ panic)
        × (read_text type_of pong later c text h' ≡ panic)
  read_text-panic now later c text h h' v m e u = (
    read_open now c text h e ((v.owned (h.objects c).user_id c m).1),
    read_closed later c text h' e (unregister_closes c h h' m u),
  )
