-- ===== src/Tests/LimitRuns.antt =====
-- The rate limiter: a counting server that has counted the given keys, and the limiter that the
-- source has as its default.
use edu_learn_notification_s.Prelude.{
  ℕ, ◌+◌, ◌*◌, String, ◌≡◌, refl, List, [], ◌∷◌, All, any, length, arith, ◌==◌, if◌then◌else◌,
  eq_refl,
}
use edu_learn_notification_s.Errors.{ok}
use edu_learn_notification_s.Otp.{second}
use edu_learn_notification_s.Ports.{Counters}
use edu_learn_notification_s.RateLimit.{default_rate_limiter, unix_epoch, window_number, reset}
use edu_learn_notification_s.RateLimit.Laws.{
  CountersLaws, Counter, no_counter, incremented, expiring, lapsed,
}
use edu_learn_notification_s.RateLimit.Window.{
  admitted, counter, Answers, IsIn, Lasts, admitted-eq-min, reset-count,
}

abbrev Server : Type 0
Server = String → Counter

-- The counter of a key.
abbrev count : String → Server → Counter
count k w = w k

abbrev server : Counters Server
server = record {
  incr = λ now k w.
      (ok (incremented now (w k)).value, λ j. if k == j then incremented now (w j) else w j);
  expire = λ now k ttl w. (ok tt, λ j. if k == j then expiring now ttl (w j) else w j);
  del = λ ks w. (ok (length ks), λ j. if any (λ k. k == j) ks then no_counter else w j);
}

server-CountersLaws : CountersLaws server count
server-CountersLaws = record {
  incr_counts = λ now k w n h. ground (arith, eq_refl k);
  expire_ok = λ now k ttl w h. rw (eq_refl k) refl;
  expire_fails = λ now k ttl w e h. absurd (cc);
  del_ok = λ ks w j n h named. rw named refl;
  del_others = λ ks w j other. rw other refl;
}

server-Answers : Answers server count server-CountersLaws default_rate_limiter
server-Answers now k w = ((incremented now (w k)).value, refl)

abbrev fresh : Server
fresh k = no_counter

abbrev noon : ℕ
noon = (unix_epoch + 43_200) * second

abbrev times : List ℕ
times = noon ∷ (noon + 1) ∷ (noon + 2) ∷ []

same_window : All (IsIn server count server-CountersLaws default_rate_limiter 720) times
unfolding window_number
same_window = ((omega arith, refl), ((omega arith, refl), ((omega arith, refl), tt)))

new_counter : Lasts server count server-CountersLaws default_rate_limiter 720 no_counter
unfolding lapsed
new_counter t i = refl

admitted-eq-min_example :
    admitted server count server-CountersLaws default_rate_limiter "ann" times fresh ≡ 3
admitted-eq-min_example =
    admitted-eq-min server count server-CountersLaws default_rate_limiter server-Answers "ann" 720
      times fresh (omega arith) same_window new_counter

reset-count_example :
    (reset server default_rate_limiter "ann" fresh).1
      (counter server count server-CountersLaws default_rate_limiter "ann" 720)
    ≡ no_counter
reset-count_example =
    reset-count server count server-CountersLaws default_rate_limiter "ann" 720 fresh
