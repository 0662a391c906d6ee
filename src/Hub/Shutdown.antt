-- ===== src/Hub/Shutdown.antt =====
-- The shutdown of the hub.
use edu_learn_notification_s.Prelude.{
  ℕ, true, false, String, ◌≡◌, refl, List, [], ◌∷◌, arith, eqb_iff, eq_iff, ◌∙◌,
}
use edu_learn_notification_s.Hub.Groups.{
  ClientMap, Distinct, IsTidy, contains, members, has_user, members_missing,
}
use edu_learn_notification_s.Hub.{
  Hub, done, close_send, close_conn, close_all, close_groups, shutdown, get_metrics, write,
}
use edu_learn_notification_s.Hub.Invariant.{Inv}

-- Closing a list of connections that are open, each once, closes these and no other.
close_all-done :
    (cs : List ℕ) (h : Hub)
    → Distinct cs
    → ((c : ℕ) → contains c cs ≡ true → (h.objects c).send_closed ≡ false)
    → (h' : Hub) × (close_all cs h ≡ done h')
      × (h'.total_clients ≡ h.total_clients)
      × ((d : ℕ)
          → ((h'.objects d).user_id ≡ (h.objects d).user_id)
            × (contains d cs ≡ false → (h'.objects d).send_closed ≡ (h.objects d).send_closed))
unfolding close_all close_send close_conn
close_all-done [] h n p = (h, refl, refl, λ d. (refl, λ e. refl))
close_all-done (c ∷ cs) h n p =
    let is_open : (h.objects c).send_closed ≡ false = p c (ground (arith, eqb_iff c c)) in
    let first = h.objects c in
    let closed = record h {
      objects =
          write (write h.objects c (record first { send_closed = true })) c
            (record (write h.objects c (record first { send_closed = true }) c) {
              conn_open = false;
            });
    } in
    let (h', e, t, o) =
      close_all-done cs closed n.1 (λ d m. ground (arith, p d, eqb_iff c d, n.0)) in
    (h', rw is_open e, t, λ d. ground (arith, o d, eqb_iff c d, eqb_iff c c))

-- Every connection of the map belongs to its user and has its channel open.
abbrev IsOwned : ClientMap → Hub → Type 0
IsOwned gs h =
    (u : String) (c : ℕ)
    → contains c (members u gs) ≡ true
    → ((h.objects c).user_id ≡ u) × ((h.objects c).send_closed ≡ false)

-- The other groups hold no connection of the first group's user.
IsOwned-rest :
    (z : String) (ys : List ℕ) (gs : ClientMap) (h : Hub) (u : String) (c : ℕ)
    → has_user z gs ≡ false
    → IsOwned ((z, ys) ∷ gs) h
    → contains c (members u gs) ≡ true
    → ((h.objects c).user_id ≡ u) × ((h.objects c).send_closed ≡ false) × (contains c ys ≡ false)
unfolding members
IsOwned-rest z ys gs h u c new owned m =
    ground (arith, owned u c, owned z c, eq_iff z u, eq_iff z z, members_missing z gs new)

close_groups-done :
    (gs : ClientMap) (h : Hub)
    → IsTidy gs
    → IsOwned gs h
    → (h' : Hub) × (close_groups gs h ≡ done h') × (h'.total_clients ≡ h.total_clients)
unfolding close_groups members
close_groups-done [] h t owned = (h, refl, refl)
close_groups-done ((z, ys) ∷ gs) h t owned =
    let (closed, ec, tc, oc) =
      close_all-done ys h t.1 (λ c m. (owned z c (ground (arith, eq_iff z z))).1) in
    let (last, el, tl) =
      close_groups-done gs closed t.3
        λ u c m. ground (arith, IsOwned-rest z ys gs h u c t.0 owned m, oc c) in
    (last, rw ec el, tl ∙ tc)

-- A first shutdown of a hub in order never panics. It forgets every user, but the count of connections
-- that GetMetrics shows stays as it was.
pub shutdown-get_metrics :
    (h : Hub)
    → Inv h
    → h.stopped ≡ false
    → (h' : Hub) × (shutdown h ≡ done h')
      × ((get_metrics h').unique_users ≡ 0)
      × ((get_metrics h').total_clients ≡ (get_metrics h).total_clients)
unfolding shutdown get_metrics
shutdown-get_metrics h v s =
    let (h', e, t) = close_groups-done h.clients (record h { stopped = true }) v.tidy v.owned in
    (record h' { clients = [] }, rw (s, e), refl, t)
