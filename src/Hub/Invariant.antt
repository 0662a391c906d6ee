-- ===== src/Hub/Invariant.antt =====
-- The registry of the hub: what its handlers keep.
use edu_learn_notification_s.Prelude.{
  ℕ, ap, ◌+◌, Bool, true, false, String, ◌≡◌, ◌≢◌, inl, inr, List, [], ◌∷◌, length, arith, eqb,
  eqb_iff, eq_iff, ◌==◌, if◌then◌else◌, Bool-cases,
}
use edu_learn_notification_s.Hub.Groups.{
  ClientMap, IsTidy, Distinct, contains, insert, remove, members, put, size, contains-insert,
  insert-Distinct, contains-remove, remove-Distinct, length-remove, members-put, members-erase,
  members-Distinct, put-IsTidy, erase-IsTidy, size-put, size-erase,
}
use edu_learn_notification_s.Hub.{
  Hub, done, close_send, handle_register, handle_unregister, drop_client, without, write,
}

-- The map is tidy, the counter of connections is their number, and every registered connection stands
-- under its own user with its send channel open.
pub record Inv (h : Hub) : Type 0 where
  pub tidy : IsTidy h.clients
  pub counted : h.total_clients ≡ size h.clients
  pub owned :
      (u : String) (c : ℕ)
      → contains c (members u h.clients) ≡ true
      → ((h.objects c).user_id ≡ u) × ((h.objects c).send_closed ≡ false)

-- A connection is registered, under its own user.
abbrev pub is_registered : ℕ → Hub → Bool
is_registered c h = contains c (members (h.objects c).user_id h.clients)

insert_fresh : (c : ℕ) (xs : List ℕ) → contains c xs ≡ false → insert c xs ≡ c ∷ xs
unfolding insert
insert_fresh c xs h = rw h

insert-ne-nil : (c : ℕ) (xs : List ℕ) → contains c xs ≡ false → insert c xs ≢ []
unfolding insert
insert-ne-nil c xs h = ground arith

size-insert :
    (u : String) (c : ℕ) (gs : ClientMap)
    → contains c (members u gs) ≡ false
    → size (put u (insert c (members u gs)) gs) ≡ size gs + 1
size-insert u c gs h = omega (
  arith,
  size-put u (insert c (members u gs)) gs,
  ap (length {A = ℕ}) (insert_fresh c (members u gs) h),
)

-- Registering a new connection, with its channel open, keeps the registry in order.
pub handle_register-Inv :
    (c : ℕ) (h : Hub)
    → Inv h
    → is_registered c h ≡ false
    → (h.objects c).send_closed ≡ false
    → Inv (handle_register c h)
unfolding handle_register
handle_register-Inv c h v new open_channel =
    let user = (h.objects c).user_id in
    let old = members user h.clients in
    record {
      tidy =
          put-IsTidy user (insert c old) h.clients
            (insert-Distinct c old (members-Distinct user h.clients v.tidy))
            (insert-ne-nil c old new) v.tidy;
      counted = omega (arith, v.counted, size-insert user c h.clients new);
      owned = λ u d. ground (
        arith,
        members-put user u (insert c old) h.clients,
        contains-insert c d old,
        v.owned u d,
        v.owned user d,
        eq_iff user u,
        eqb_iff c d,
      );
    }

-- What an unregistering leaves: the connection out of the map, its channel closed, all else as it was.
size-drop :
    (u : String) (c : ℕ) (gs : ClientMap)
    → IsTidy gs
    → contains c (members u gs) ≡ true
    → size (without u (remove c (members u gs)) gs) + 1 ≡ size gs
unfolding without
size-drop u c gs t m = ground (
  arith,
  size-put u (remove c (members u gs)) gs,
  size-erase u gs t,
  length-remove c (members u gs) (members-Distinct u gs t) m,
)

length-ne-nil : {xs : List ℕ} → eqb (length xs) 0 ≡ false → xs ≢ []
length-ne-nil {xs} h e = cc (h, ap (λ (l : List ℕ). eqb (length l) 0) e)

without-IsTidy :
    (u : String) (xs : List ℕ) (gs : ClientMap) → Distinct xs → IsTidy gs → IsTidy (without u xs gs)
unfolding without
without-IsTidy u xs gs d t = elim (Bool-cases (eqb (length xs) 0)) [
  | inl e ↦ rw e (erase-IsTidy u gs t)
  | inr e ↦ rw e (put-IsTidy u xs gs d (length-ne-nil e) t)
]

pub members-without :
    (u v : String) (xs : List ℕ) (gs : ClientMap)
    → members v (without u xs gs) ≡ (if u == v then xs else members v gs)
unfolding without
members-without u v [] gs = members-erase u v gs
members-without u v (x ∷ xs) gs = ground (arith, members-put u v (x ∷ xs) gs)

-- The hub after a registered connection is unregistered.
unfoldable pub unregistered : ℕ → Hub → Hub
unfolding drop_client
unregistered c h =
    let client = h.objects c in
    let closed = record h { objects = write h.objects c (record client { send_closed = true }) } in
    drop_client client.user_id c closed

pub unregistered-Inv : (c : ℕ) (h : Hub) → Inv h → is_registered c h ≡ true → Inv (unregistered c h)
unfolding unregistered
unregistered-Inv c h v m =
    let user = (h.objects c).user_id in
    let old = members user h.clients in
    let rest = remove c old in
    record {
      tidy =
          without-IsTidy user rest h.clients
            (remove-Distinct c old (members-Distinct user h.clients v.tidy)) v.tidy;
      counted = omega (arith, v.counted, size-drop user c h.clients v.tidy m);
      owned = λ u d. ground (
        arith,
        members-without user u rest h.clients,
        contains-remove c d old,
        v.owned u d,
        v.owned u c,
        v.owned user d,
        eq_iff user u,
        eqb_iff c d,
      );
    }

-- Unregistering never panics, and keeps the registry in order; of a registered connection it takes
-- one from the count, and the connection is not registered any more.
pub handle_unregister-Inv :
    (c : ℕ) (h : Hub)
    → Inv h
    → (h' : Hub) × (handle_unregister c h ≡ done h')
      × Inv h'
      × (is_registered c h' ≡ false)
      × (h'.total_clients + (if is_registered c h then 1 else 0) ≡ h.total_clients)
unfolding handle_unregister unregistered close_send
handle_unregister-Inv c h v =
    let user = (h.objects c).user_id in
    elim (Bool-cases (is_registered c h)) [
      | inl m ↦ (
        unregistered c h,
        rw (m, (v.owned (h.objects c).user_id c m).1),
        unregistered-Inv c h v m,
        ground (
          arith,
          eqb_iff c c,
          members-without user user (remove c (members user h.clients)) h.clients,
          contains-remove c c (members user h.clients),
          eq_iff user user,
        ),
        rw m (omega (arith, v.counted, size-drop user c h.clients v.tidy m)),
      )
      | inr m ↦ (h, rw m, v, m, ground arith)
    ]
