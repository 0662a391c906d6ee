-- ===== src/Effect.antt =====
-- Calls that act on the outside world. `W` is the state of everything that the program reaches: the
-- Redis server, the database, the Kafka cluster, the mail server, and the objects of the program
-- that it shares. A call gives a result or an error, and the state that it leaves, on an error too.
-- Go's `if err != nil { return err }` is the bind. A request reads the clock once: `now` is an
-- argument of the calls that depend on the time.
use edu_learn_notification_s.Prelude.{String}
use edu_learn_notification_s.Errors.{Err, Result, ok, err, with_context}

abbrev pub Exec : Type 0 → Type 0 → Type 0
Exec W A = W → Result A × W

module _ {W A : Type 0} where
  abbrev pub pure : A → Exec W A
  pure a w = (ok a, w)

  abbrev pub fail : Err → Exec W A
  fail e w = (err e, w)

  abbrev pub lift : Result A → Exec W A
  lift r w = (r, w)

  -- `return fmt.Errorf("text: %w", err)` where the call fails
  abbrev pub context : String → Exec W A → Exec W A
  context text m w = let (r, w') = m w in (with_context text r, w')

  -- The call with its error as a value: what follows looks at it.
  abbrev pub attempt : Exec W A → Exec W (Result A)
  attempt m w = let (r, w') = m w in (ok r, w')

  -- The call with its error logged or dropped: what follows does not depend on it.
  abbrev pub ignore : Exec W A → Exec W (Unit {0})
  ignore m w = let (r, w') = m w in (ok tt, w')

module _ {W A B : Type 0} where
  abbrev continue : Result A → (A → Exec W B) → Exec W B
  continue (ok a) f w = f a w
  continue (err e) f w = (err e, w)

  infixl 5 ◌>>=◌ ◌>>◌
  abbrev pub ◌>>=◌ : Exec W A → (A → Exec W B) → Exec W B
  ◌>>=◌ m f w = let (r, w') = m w in continue r f w'

  abbrev pub ◌>>◌ : Exec W A → Exec W B → Exec W B
  m >> n = m >>= λ _. n
