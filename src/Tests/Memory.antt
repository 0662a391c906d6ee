-- ===== src/Tests/Memory.antt =====
-- A Redis server in memory, with which the theorems that rest on the server's contract can be run: the
-- writes, newest first, each with the moment at which it lapses, if any; a removal is an empty write.
use edu_learn_notification_s.Prelude.{
  ℕ, ◌+◌, eqb, arith, ltb, String, ◌≡◌, refl, List, [], ◌∷◌, length, Option, none, some,
  if◌then◌else◌, ◌==◌,
}
use edu_learn_notification_s.Errors.{ok}
use edu_learn_notification_s.Otp.{Otp}
use edu_learn_notification_s.Redis.{RedisClient, Codec}
use edu_learn_notification_s.Redis.Laws.{RedisLaws}

abbrev pub Writes : Type 0
Writes = List (String × Option (Otp × Option ℕ))

abbrev alive : ℕ → Option (Otp × Option ℕ) → Option Otp
alive now none = none
alive now (some (d, none)) = some d
alive now (some (d, some deadline)) = if ltb now deadline then some d else none

abbrev pub look : ℕ → String → Writes → Option Otp
look now key [] = none
look now key ((j, v) ∷ w) = if j == key then alive now v else look now key w

abbrev removed : List String → Writes → Writes
removed [] w = w
removed (k ∷ ks) w = (k, none) ∷ removed ks w

abbrev pub memory : RedisClient Writes Otp
memory = record {
  set = λ now key d ttl w.
      (ok tt, (key, some (d, (if eqb ttl 0 then none else some (now + ttl)))) ∷ w);
  get = λ now key w. (ok (look now key w), w);
  incr = λ now key w. (ok 1, w);
  del = λ ks w. (ok (length ks), removed ks w);
  exists = λ now key w. (ok 0, w);
  expire = λ now key ttl w. (ok tt, w);
  scan = λ pattern w. (ok [], w);
}

get_found :
    (now : ℕ) (key : String) (w : Writes) (r : Option Otp)
    → (memory.get now key w).0 ≡ ok r
    → look now key w ≡ r
get_found now key w r h = cc

pub memory-RedisLaws : RedisLaws memory look
memory-RedisLaws = record {
  get_found = get_found;
  get_keeps = λ now key w n j. refl;
  set_ok = λ now key d ttl w h n j le. ground arith;
  del_ok = λ key w count h n j. refl;
}

-- JSON that is the value itself.
abbrev pub plain : Codec Otp Otp
plain = record { marshal = ok; unmarshal = ok }

pub plain_round_trip : (v d : Otp) → plain.marshal v ≡ ok d → plain.unmarshal d ≡ ok v
plain_round_trip v d h = cc
