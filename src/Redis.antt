-- ===== src/Redis.antt =====
-- internal/infrastructure/redis/redis_client.go: `RedisCache`, over the client of go-redis, which is
-- a parameter. `D` stands for the bytes of a value in JSON; `Codec` for `json.Marshal` and
-- `json.Unmarshal` at one type.
pub mod Laws
use edu_learn_notification_s.Prelude.{
  ℕ, Bool, eqb, String, ◌≡◌, List, [], ◌∷◌, map, Option, none, some, ◌*◌, if◌then◌else◌,
}
use edu_learn_notification_s.Errors.{Err, Result, ok, err, new, wrap, with_context}
use edu_learn_notification_s.Effect.{Exec, pure, fail, lift, context, ◌>>=◌, ◌>>◌}
use edu_learn_notification_s.Otp.{minute}
use edu_learn_notification_s.Ports.{Cache, Counters}
use Prim.Native.String.{◌++◌}

-- go-redis. `get` gives `none` for `redis.Nil`.
pub record RedisClient (W D : Type 0) : Type 0 where
  pub set : ℕ → String → D → ℕ → Exec W (Unit {0})
  pub get : ℕ → String → Exec W (Option D)
  pub incr : ℕ → String → Exec W ℕ
  pub del : List String → Exec W ℕ
  pub exists : ℕ → String → Exec W ℕ
  pub expire : ℕ → String → ℕ → Exec W (Unit {0})
  pub scan : String → Exec W (List String)

pub record Codec (V D : Type 0) : Type 0 where
  pub marshal : V → Result D
  pub unmarshal : D → Result V

abbrev default_expiration : ℕ
default_expiration = 10 * minute

abbrev cache_miss : Err
cache_miss = new "the requested item was not found in the Redis cache (cache miss)"

-- func (r *RedisCache) buildKey(key string) string
unfoldable pub build_key : String → String → String
build_key key_prefix key = (key_prefix ++ ":") ++ key

or_miss {ℓ} : {A : Type ℓ} → Option A → Result A
or_miss none = err cache_miss
or_miss (some a) = ok a

module _ {W D : Type 0} (client : RedisClient W D) (key_prefix : String) where
  module _ {V : Type 0} (json : Codec V D) where
    -- func (r *RedisCache) Set
    pub cache_set : ℕ → String → V → ℕ → Exec W (Unit {0})
    cache_set now key value expiration = do
      bytes ← lift (with_context "failed to marshal cache value" (json.marshal value))
      client.set now (build_key key_prefix key) bytes
          (if eqb expiration 0 then default_expiration else expiration)

    -- func (r *RedisCache) Get
    pub cache_get : ℕ → String → Exec W V
    unfolding or_miss
    cache_get now key = do
      found ← client.get now (build_key key_prefix key)
      bytes ← lift (or_miss found)
      lift (with_context "failed to decode cached value" (json.unmarshal bytes))

  -- func (r *RedisCache) Delete
  pub cache_delete : String → Exec W (Unit {0})
  cache_delete key = do client.del (build_key key_prefix key ∷ []); pure tt

  -- func (r *RedisCache) Exists
  cache_exists : ℕ → String → Exec W Bool
  cache_exists now key = do count ← client.exists now (build_key key_prefix key); pure (eqb count 1)

  unfoldable pub redis_cache : {V : Type 0} → Codec V D → Cache W V
  unfolding cache_set cache_get cache_delete cache_exists
  redis_cache json = record {
    set = cache_set json;
    get = cache_get json;
    delete = cache_delete;
    exists = cache_exists;
  }

  -- func (r *RedisCache) Incr, Expire, Del
  unfoldable redis_counters : Counters W
  redis_counters = record {
    incr = λ now key. client.incr now (build_key key_prefix key);
    expire = λ now key ttl. client.expire now (build_key key_prefix key) ttl;
    del = λ keys. client.del (map (build_key key_prefix) keys);
  }

  delete_each : List String → Exec W (Unit {0})
  delete_each [] = pure tt
  delete_each (k ∷ ks) = do client.del (k ∷ []); delete_each ks

  -- func (r *RedisCache) Invalidate
  invalidate : Exec W (Unit {0})
  unfolding delete_each
  invalidate = do keys ← client.scan (key_prefix ++ ":*"); delete_each keys
