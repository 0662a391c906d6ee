-- ===== src/Redis/Laws.antt =====
-- The contract of `ports.Cache`, and the proof that `RedisCache` meets it over a Redis server that
-- keeps its own.
use edu_learn_notification_s.Prelude.{
  ℕ, ◌+◌, ◌*◌, eqb, ◌≤◌, ap, ltb, String, ◌≡◌, [], ◌∷◌, Option, none, some, if◌then◌else◌, ◌==◌,
  arith, ==-append,
}
use edu_learn_notification_s.Errors.{ok, err}
use edu_learn_notification_s.Otp.{minute}
use edu_learn_notification_s.Ports.{Cache}
use edu_learn_notification_s.Redis.{
  RedisClient, Codec, redis_cache, build_key, cache_set, cache_get, cache_delete, or_miss,
}

-- What is alive under a key after a value was put under another with a lifetime.
abbrev pub after_set {ℓ} : {V : Type ℓ} → String → V → ℕ → ℕ → String → Option V → Option V
after_set key value deadline now j old =
    if key == j then (if ltb now deadline then some value else none) else old

-- What is alive after a SET of the server: an expiry of 0 is none.
abbrev pub after_redis_set {ℓ} :
    {V : Type ℓ} → String → V → ℕ → ℕ → ℕ → String → Option V → Option V
after_redis_set key value now ttl n j old =
    if eqb ttl 0
    then (if key == j then some value else old)
    else after_set key value (now + ttl) n j old

-- The lifetime of a value in the cache: ten minutes where 0 is given.
abbrev pub lifetime : ℕ → ℕ
lifetime ttl = if eqb ttl 0 then 10 * minute else ttl

-- What a client of the cache may rely on. `peek now key w` is the value that is stored and alive at
-- the time `now`. A call that fails promises nothing but that `get` changes no value.
pub record CacheLaws {W V : Type 0} (c : Cache W V) (peek : ℕ → String → W → Option V)
    : Type 0 where
  pub get_found :
      (now : ℕ) (key : String) (w : W) (v : V)
      → (c.get now key w).0 ≡ ok v
      → peek now key w ≡ some v
  pub get_keeps :
      (now : ℕ) (key : String) (w : W) (n : ℕ) (j : String)
      → peek n j (c.get now key w).1 ≡ peek n j w
  pub set_ok :
      (now : ℕ) (key : String) (v : V) (ttl : ℕ) (w : W)
      → (c.set now key v ttl w).0 ≡ ok tt
      → (n : ℕ) (j : String) → now ≤ n
      → peek n j (c.set now key v ttl w).1 ≡ after_set key v (now + lifetime ttl) n j (peek n j w)
  pub delete_ok :
      (key : String) (w : W)
      → (c.delete key w).0 ≡ ok tt
      → (n : ℕ) (j : String) → peek n j (c.delete key w).1 ≡ (if key == j then none else peek n j w)

-- The documented behaviour of SET with an expiry, GET and DEL.
pub record RedisLaws {W D : Type 0} (client : RedisClient W D) (peek : ℕ → String → W → Option D)
    : Type 0 where
  pub get_found :
      (now : ℕ) (key : String) (w : W) (r : Option D)
      → (client.get now key w).0 ≡ ok r
      → peek now key w ≡ r
  pub get_keeps :
      (now : ℕ) (key : String) (w : W) (n : ℕ) (j : String)
      → peek n j (client.get now key w).1 ≡ peek n j w
  pub set_ok :
      (now : ℕ) (key : String) (d : D) (ttl : ℕ) (w : W)
      → (client.set now key d ttl w).0 ≡ ok tt
      → (n : ℕ) (j : String) → now ≤ n
      → peek n j (client.set now key d ttl w).1 ≡ after_redis_set key d now ttl n j (peek n j w)
  pub del_ok :
      (key : String) (w : W) (count : ℕ)
      → (client.del (key ∷ []) w).0 ≡ ok count
      → (n : ℕ) (j : String)
      → peek n j (client.del (key ∷ []) w).1 ≡ (if key == j then none else peek n j w)

abbrev pub decode : {V D : Type 0} → Codec V D → Option D → Option V
decode json none = none
decode json (some d) = elim (json.unmarshal d) [ ok v ↦ some v | err e ↦ none ]

module _ {W V D : Type 0} (client : RedisClient W D) (peek : ℕ → String → W → Option D)
    (laws : RedisLaws client peek) (json : Codec V D)
    (round_trip : (v : V) (d : D) → json.marshal v ≡ ok d → json.unmarshal d ≡ ok v)
    (key_prefix : String) where
  abbrev cache : Cache W V
  cache = redis_cache client key_prefix json

  key-eq : (a b : String) → (build_key key_prefix a == build_key key_prefix b) ≡ (a == b)
  unfolding build_key
  key-eq a b = ==-append _ a b

  get-found :
      (now : ℕ) (key : String) (w : W) (v : V)
      → (cache_get client key_prefix json now key w).0 ≡ ok v
      → decode json (peek now (build_key key_prefix key) w) ≡ some v
  unfolding cache_get or_miss
  get-found now key w v h = grind (arith, laws.get_found)

  get-keeps :
      (now : ℕ) (key : String) (w : W) (n : ℕ) (j : String)
      → peek n j (cache_get client key_prefix json now key w).1 ≡ peek n j w
  unfolding cache_get or_miss
  get-keeps now key w n j = ground (arith, laws.get_keeps now (build_key key_prefix key) w n j)

  set-ok :
      (now : ℕ) (key : String) (v : V) (ttl : ℕ) (w : W)
      → (cache_set client key_prefix json now key v ttl w).0 ≡ ok tt
      → (n : ℕ) (j : String) → now ≤ n
      → decode json
          (peek n (build_key key_prefix j) (cache_set client key_prefix json now key v ttl w).1)
        ≡ after_set key v (now + lifetime ttl) n j (decode json (peek n (build_key key_prefix j) w))
  unfolding cache_set
  set-ok now key v ttl w h n j le = grind (arith, laws.set_ok, round_trip, key-eq)

  delete-ok :
      (key : String) (w : W)
      → (cache_delete client key_prefix key w).0 ≡ ok tt
      → (n : ℕ) (j : String)
      → decode json (peek n (build_key key_prefix j) (cache_delete client key_prefix key w).1)
        ≡ (if key == j then none else decode json (peek n (build_key key_prefix j) w))
  unfolding cache_delete
  delete-ok key w h n j = grind (arith, laws.del_ok, key-eq)

  -- `RedisCache` over a server that keeps its documented contract, with a JSON encoding that can be
  -- read back, meets the contract of the cache: a value that a `Set` stored is the one that a `Get`
  -- finds under its key alone and until its lifetime ends, ten minutes where the lifetime that is given
  -- is 0; a `Get` changes no value; and a `Delete` that succeeds removes the value of its key alone.
  pub redis_cache-CacheLaws :
      CacheLaws cache (λ n j w. decode json (peek n (build_key key_prefix j) w))
  unfolding redis_cache
  redis_cache-CacheLaws = record {
    get_found = get-found;
    get_keeps = λ now key w n j. ap (decode json) (get-keeps now key w n (build_key key_prefix j));
    set_ok = set-ok;
    delete_ok = delete-ok;
  }
