-- ===== src/RateLimit/Laws.antt =====
-- What the limiter relies on: INCR counts on from a counter that is alive, and makes a new one, without
-- a deadline, in place of one that has lapsed; EXPIRE sets the deadline of one that is alive; DEL removes the keys that it
-- is given, which are names and not patterns.
use edu_learn_notification_s.Prelude.{
  ℕ, ◌+◌, leb, eqb, ◌||◌, Bool, true, false, String, ◌≡◌, ◌⊎◌, List, any, ◌==◌, if◌then◌else◌,
  Option, none, some,
}
use edu_learn_notification_s.Errors.{ok, err, Err}
use edu_learn_notification_s.Ports.{Counters}

-- What Redis holds for the name of a counter; 0 without a deadline where it holds nothing.
pub record Counter : Type 0 where
  pub value : ℕ
  pub deadline : Option ℕ

abbrev pub no_counter : Counter
no_counter = record { value = 0; deadline = none }

lapsed_at : ℕ → Option ℕ → Bool
lapsed_at now none = false
lapsed_at now (some deadline) = leb deadline now

unfoldable pub lapsed : ℕ → Counter → Bool
unfolding lapsed_at
lapsed now c = lapsed_at now c.deadline

abbrev pub incremented : ℕ → Counter → Counter
incremented now c =
    if lapsed now c then record { value = 1; deadline = none } else record c { value = c.value + 1 }

-- A counter that is not there, or no more, gets no deadline.
abbrev pub expiring : ℕ → ℕ → Counter → Counter
expiring now ttl c =
    if lapsed now c || eqb c.value 0 then c else record c { deadline = some (now + ttl) }

pub record CountersLaws {W : Type 0} (c : Counters W) (count : String → W → Counter) : Type 0 where
  pub incr_counts :
      (now : ℕ) (k : String) (w : W) (n : ℕ)
      → (c.incr now k w).0 ≡ ok n
      → (n ≡ (incremented now (count k w)).value)
        × (count k (c.incr now k w).1 ≡ incremented now (count k w))
  pub expire_ok :
      (now : ℕ) (k : String) (ttl : ℕ) (w : W)
      → (c.expire now k ttl w).0 ≡ ok tt
      → count k (c.expire now k ttl w).1 ≡ expiring now ttl (count k w)
  pub expire_fails :
      (now : ℕ) (k : String) (ttl : ℕ) (w : W) (e : Err)
      → (c.expire now k ttl w).0 ≡ err e
      → (count k (c.expire now k ttl w).1 ≡ count k w)
        ⊎ (count k (c.expire now k ttl w).1 ≡ expiring now ttl (count k w))
  pub del_ok :
      (ks : List String) (w : W) (j : String) (n : ℕ)
      → (c.del ks w).0 ≡ ok n
      → any (λ k. k == j) ks ≡ true
      → count j (c.del ks w).1 ≡ no_counter
  pub del_others :
      (ks : List String) (w : W) (j : String)
      → any (λ k. k == j) ks ≡ false
      → count j (c.del ks w).1 ≡ count j w
