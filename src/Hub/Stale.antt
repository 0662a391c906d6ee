-- ===== src/Hub/Stale.antt =====
-- The periodic check of stale connections, with the readers that end while it runs.
use edu_learn_notification_s.Prelude.{
  ℕ, ◌+◌, ◌≤◌, ◌<◌, ◌≡◌, ◌∙◌, sym, ap, lt→ltb, refl, List, [], ◌∷◌, ◌++◌, length, length-append,
  arith,
}
use mathlib.Core.List.{append-nil, append_assoc}
use edu_learn_notification_s.Hub.{
  Hub, done, blocked, unregister_cap, stale_clients, send_unregister, close_conn, crowd,
  unregister_all, handle_ping,
}

-- The connections in the order in which the loop and the readers send them.
abbrev pub queue : (ℕ → List ℕ) → List ℕ → List ℕ
queue others [] = []
queue others (c ∷ cs) = others c ++ c ∷ queue others cs

crowd_room :
    (ds : List ℕ) (h : Hub)
    → length h.unregister + length ds ≤ unregister_cap
    → crowd ds h ≡ record h { unregister = h.unregister ++ ds }
unfolding crowd
crowd_room [] h p = ap (λ l. record h { unregister = l }) (sym (append-nil h.unregister))
crowd_room (d ∷ ds) h p =
    let queued = record h { unregister = h.unregister ++ d ∷ [] } in
    rw (lt→ltb (length h.unregister) unregister_cap (omega arith)) (
      crowd_room ds queued (omega (arith, length-append h.unregister (d ∷ [])))
      ∙ ap (λ l. record h { unregister = l }) (append_assoc h.unregister (d ∷ []) ds))

-- The readers only add to the channel, and do not fill it beyond its size.
crowd_grows :
    (ds : List ℕ) (h : Hub)
    → length h.unregister ≤ unregister_cap
    → (length h.unregister ≤ length (crowd ds h).unregister)
      × (length (crowd ds h).unregister ≤ unregister_cap)
unfolding crowd
crowd_grows [] h p = (omega arith, p)
crowd_grows (d ∷ ds) h p =
    let queued = record h { unregister = h.unregister ++ d ∷ [] } in
    ground (arith, length-append h.unregister (d ∷ []), crowd_grows ds queued)

-- The connections that a check and the readers queue all wait in the channel, in order.
unregister_all_room :
    (others : ℕ → List ℕ) (cs : List ℕ) (h : Hub)
    → length h.unregister + length (queue others cs) ≤ unregister_cap
    → (h' : Hub) × (unregister_all others cs h ≡ done h')
      × (h'.unregister ≡ h.unregister ++ queue others cs)
unfolding unregister_all send_unregister
unregister_all_room others [] h p = (h, refl, sym (append-nil h.unregister))
unregister_all_room others (c ∷ cs) h p =
    let ds = others c in
    let rest = queue others cs in
    let split = length-append ds (c ∷ rest) in
    let crowded = record h { unregister = h.unregister ++ ds } in
    let queued = record h { unregister = (h.unregister ++ ds) ++ c ∷ [] } in
    let both = length-append h.unregister ds in
    let (h', e, q) =
      unregister_all_room others cs (close_conn c queued)
        (omega (arith, split, both, length-append (h.unregister ++ ds) (c ∷ []))) in
    (
      h',
      rw
          (
            crowd_room ds h (omega (arith, split)),
            lt→ltb (length (h.unregister ++ ds)) unregister_cap (omega (arith, split, both)),
          )
          e,
      q ∙ append_assoc (h.unregister ++ ds) (c ∷ []) rest ∙ append_assoc h.unregister ds (c ∷ rest),
    )

unregister_all_full :
    (others : ℕ → List ℕ) (cs : List ℕ) (h : Hub)
    → length h.unregister ≤ unregister_cap
    → unregister_cap < length h.unregister + length cs
    → unregister_all others cs h ≡ blocked
unfolding unregister_all send_unregister
unregister_all_full others [] h b p = absurd (omega arith)
unregister_all_full others (c ∷ cs) h b p =
    let crowded = crowd (others c) h in
    let queued = record crowded { unregister = crowded.unregister ++ c ∷ [] } in
    ground (
      arith,
      crowd_grows (others c) h b,
      length-append crowded.unregister (c ∷ []),
      unregister_all_full others cs (close_conn c queued),
    )

-- Whatever readers end while the loop runs, the hub's own goroutine, the only one that empties the
-- channel of the connections to unregister, comes to wait on that channel if the stale connections and
-- those that are queued already are together more than the channel's 64 places. If these and the readers'
-- fit into it, the loop ends, and has queued all of them, in the order of the sends.
pub handle_ping-blocked :
    (others : ℕ → List ℕ) (now : ℕ) (h : Hub)
    → length h.unregister ≤ unregister_cap
    → let stale = stale_clients now h.objects h.clients in
      (unregister_cap < length h.unregister + length stale → handle_ping others now h ≡ blocked)
      × (length h.unregister + length (queue others stale) ≤ unregister_cap
          → (h' : Hub) × (handle_ping others now h ≡ done h')
            × (h'.unregister ≡ h.unregister ++ queue others stale))
unfolding handle_ping
handle_ping-blocked others now h b =
    let stale = stale_clients now h.objects h.clients in
    (unregister_all_full others stale h b, unregister_all_room others stale h)
