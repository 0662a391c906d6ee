-- ===== src/Smtp/Pool/Shut.antt =====
-- The end of the pool.
use edu_learn_notification_s.Prelude.{
  ℕ, Bool, true, false, ◌≡◌, refl, List, [], ◌∷◌, arith, if◌then◌else◌,
}
use edu_learn_notification_s.Errors.{ok}
use edu_learn_notification_s.Hub.Groups.{contains}
use edu_learn_notification_s.Smtp.{returns, panics, EmailConfig, NetSmtp, State}
use edu_learn_notification_s.Smtp.Pool.{close_each, close_pool, get, get_idle}
use edu_learn_notification_s.Smtp.Pool.Opened.{NetLaws, Tidy}

module _ {W : Type 0} {net : NetSmtp W} {in_use : W → ℕ → Bool} (laws : NetLaws net in_use)
    (config : EmailConfig) where
  in_use-close_each :
      (cs : List ℕ) (w : W) (d : ℕ)
      → in_use (close_each net cs w) d ≡ (if contains d cs then false else in_use w d)
  unfolding close_each
  in_use-close_each [] w d = refl
  in_use-close_each (c ∷ cs) w d =
      ground (arith, in_use-close_each cs (net.close c w) d, laws.close_closes c d w)

  -- The state that closing leaves.
  shut : State W → State W
  shut s = record s { conns = []; closed = true; world = close_each net s.conns s.world }

  -- Closing an open pool closes its idle connections and no other, so that the connections in use are
  -- those which senders hold; after that a sender that asks for a connection panics, and so does a
  -- second Close.
  pub close_pool-panics :
      (held : ℕ → Bool) (s : State W)
      → Tidy in_use config held s
      → (s' : State W) × (close_pool net s ≡ returns (ok tt, s'))
        × ((d : ℕ) → in_use s'.world d ≡ held d)
        × (get net s' ≡ panics)
        × (close_pool net s' ≡ panics)
  unfolding close_pool get get_idle shut
  close_pool-panics held s t = (
    shut s,
    ground (arith, t.running),
    λ d. ground (arith, in_use-close_each s.conns s.world d, t.exact d, t.apart d),
    refl,
    refl,
  )
