-- ===== src/Hub/Live.antt =====
-- What every step of the hub and of its connections keeps.
use edu_learn_notification_s.Prelude.{
  ℕ, ◌<◌, Bool, true, false, String, ◌≡◌, ◌∙◌, refl, sym, ap, subst, inl, inr, List, ◌∷◌, length,
  arith, eqb, eqb_iff, eq_iff, ◌==◌, Bool-cases, ltb,
}
use edu_learn_notification_s.Errors.{Result, ok, err}
use edu_learn_notification_s.Hub.Groups.{
  Distinct, contains, members, insert, remove, members-put, contains-insert, contains-remove,
  contains-snoc, Distinct-snoc,
}
use edu_learn_notification_s.Hub.{
  Hub, close_send, drop_client, handle_register, handle_unregister, register_cap,
}
use edu_learn_notification_s.Hub.Invariant.{
  Inv, is_registered, handle_register-Inv, unregistered, unregistered-Inv, members-without,
}
use edu_learn_notification_s.Hub.Pumps.{serve_ws, accept, new_client}
use edu_learn_notification_s.Hub.Quiet.{Quiet, Ends}

-- A hub in order: its registry is; each connection has an address below the next
-- free one; and a connection that waits to be registered waits once, is not registered, and is open.
pub record Live (h : Hub) : Type 0 where
  pub inv : Inv h
  pub below : (u : String) (c : ℕ) → contains c (members u h.clients) ≡ true → c < h.next
  pub once : Distinct h.register
  pub waiting :
      (c : ℕ)
      → contains c h.register ≡ true
      → (c < h.next) × (is_registered c h ≡ false) × ((h.objects c).send_closed ≡ false)

same-Inv : (h i : Hub) → Quiet h i → Inv h → Inv i
same-Inv h i (k, r, n, t, o) v = record {
  tidy = rw k v.tidy;
  counted = rw (t, k) v.counted;
  owned = λ u c m.
      let (p, q) = v.owned u c (sym (ap (λ g. contains c (members u g)) k) ∙ m) in
      ((o c).0 ∙ p, (o c).1 ∙ q);
}

pub Quiet-Live : (h h' : Hub) → Quiet h h' → Live h → Live h'
Quiet-Live h h' (k, r, n, t, o) v = record {
  inv = same-Inv h h' (k, r, n, t, o) v.inv;
  below = λ u c m. rw n (v.below u c (sym (ap (λ g. contains c (members u g)) k) ∙ m));
  once = rw r v.once;
  waiting = λ c m.
      let (a, b, d) = v.waiting c (sym (ap (contains c) r) ∙ m) in
      (rw n a, rw (k, (o c).0) b, (o c).1 ∙ d);
}

-- The hub takes a connection that waits.
pub take_register-Live :
    (c : ℕ) (rest : List ℕ) (h : Hub)
    → h.register ≡ c ∷ rest
    → Live h
    → Live (handle_register c (record h { register = rest }))
unfolding handle_register
take_register-Live c rest h e v =
    let old = members (h.objects c).user_id h.clients in
    let first : contains c h.register ≡ true = rw e (ground (arith, eqb_iff c c)) in
    let once : Distinct (c ∷ rest) = subst Distinct e v.once in
    let (lt, new, open_channel) = v.waiting c first in
    record {
      inv =
          handle_register-Inv c (record h { register = rest })
            (record { tidy = v.inv.tidy; counted = v.inv.counted; owned = v.inv.owned }) new
            open_channel;
      below = λ u d m. ground (
        arith,
        members-put (h.objects c).user_id u (insert c old) h.clients,
        contains-insert c d old,
        v.below u d,
        v.below (h.objects c).user_id d,
        eqb_iff c d,
      );
      once = once.1;
      waiting = λ d m.
          let later : contains d h.register ≡ true = rw e (ground (arith, eqb_iff c d)) in
          let (a, b, o) = v.waiting d later in
          (
            a,
            ground (
              arith,
              members-put (h.objects c).user_id (h.objects d).user_id (insert c old) h.clients,
              contains-insert c d old,
              eq_iff (h.objects c).user_id (h.objects d).user_id,
              eqb_iff c d,
              once.0,
            ),
            o,
          );
    }

-- The hub takes a connection out.
pub take_unregister-Live :
    (c : ℕ) (rest : List ℕ) (h : Hub)
    → Live h
    → Ends Live (handle_unregister c (record h { unregister = rest }))
unfolding handle_unregister unregistered close_send drop_client
take_unregister-Live c rest h v =
    let i = record h { unregister = rest } in
    let user = (h.objects c).user_id in
    let old = members user h.clients in
    let kept : Inv i = record { tidy = v.inv.tidy; counted = v.inv.counted; owned = v.inv.owned } in
    elim (Bool-cases (is_registered c h)) [
      | inl m ↦
          rw (m, (v.inv.owned user c m).1)
            (record {
              inv = unregistered-Inv c i kept m;
              below = λ u d n. ground (
                arith,
                members-without user u (remove c old) h.clients,
                contains-remove c d old,
                v.below u d,
                v.below user d,
                eqb_iff c d,
              );
              once = v.once;
              waiting = λ d n.
                  let (a, b, o) = v.waiting d n in
                  (
                    a,
                    ground (
                      arith,
                      members-without user (h.objects d).user_id (remove c old) h.clients,
                      contains-remove c d old,
                      eq_iff user (h.objects d).user_id,
                      eqb_iff c d,
                    ),
                    ground (arith, eqb_iff c d),
                  );
            })
      | inr m ↦ rw m (record { inv = kept; below = v.below; once = v.once; waiting = v.waiting })
    ]

-- A client that is let in gets the next address, and waits.
accept-Live :
    (now : ℕ) (user_id : String) (h : Hub) → Live h → Ends (λ r. Live r.0) (accept now user_id h)
unfolding accept new_client
accept-Live now user_id h v =
    let fresh : contains h.next h.register ≡ false =
      elim (Bool-cases (contains h.next h.register)) [
        | inl m ↦ absurd (omega (arith, (v.waiting h.next m).0))
        | inr m ↦ m
      ] in
    let unused : (u : String) → contains h.next (members u h.clients) ≡ false = λ u.
      elim (Bool-cases (contains h.next (members u h.clients))) [
        | inl m ↦ absurd (omega (arith, v.below u h.next m))
        | inr m ↦ m
      ] in
    elim (Bool-cases (ltb (length h.register) register_cap)) [
      | inl room ↦ rw room (record {
        inv = record {
          tidy = v.inv.tidy;
          counted = v.inv.counted;
          owned = λ u c m. ground (arith, eqb_iff h.next c, v.below u c m, v.inv.owned u c m);
        };
        below = λ u c m. omega (arith, v.below u c m);
        once = Distinct-snoc h.next h.register v.once fresh;
        waiting = λ c m. elim (Bool-cases (eqb h.next c)) [
          | inl e ↦ rw e (
            ground (arith, eqb_iff h.next c),
            ground (arith, unused user_id, eqb_iff h.next c),
            refl,
          )
          | inr e ↦
              let (a, b, o) = v.waiting c (ground (arith, contains-snoc h.next c h.register)) in
              rw e (omega arith, b, o)
        ];
      })
      | inr full ↦ rw full tt
    ]

pub serve_ws-Live :
    (now : ℕ) (auth : Result String) (upgraded : Bool) (h : Hub)
    → Live h
    → Ends (λ r. Live r.0) (serve_ws now auth upgraded h)
unfolding serve_ws
serve_ws-Live now (err e) upgraded h v = v
serve_ws-Live now (ok user_id) true h v = elim (Bool-cases (user_id == "")) [
  | inl none ↦ rw none v
  | inr some ↦ rw some (accept-Live now user_id h v)
]
serve_ws-Live now (ok user_id) false h v = elim (Bool-cases (user_id == "")) [
  | inl none ↦ rw none v
  | inr some ↦ rw some v
]
