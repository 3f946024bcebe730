-- ===== src/Redis/Throttler.antt =====
-- internal/infrastructure/redis/throttler.go, and the result type of internal/ports/throttle.
pub mod Laws
use golang_restapi.Base.{
  ℕ, String, Option, Bool, true, false, none, some, ◌==◌, string_eq, if◌then◌else◌,
}
use golang_restapi.Base.Int.{ℤ, is_below}
use golang_restapi.Errors.{plain}
use golang_restapi.Auth.Model.{add_duration}
use golang_restapi.World.Platform.{Env, Key, throttle}
use golang_restapi.World.Action.{
  ⊤, Action, pure, ◌>>=◌, ◌>>◌, throw_if, get_redis, put_redis, time_now, outside, wrap_err,
}

pub record Throttle : Type 0 where
  pub allowed : Bool
  pub retry_after : ℕ

-- `none` is redis.Nil
unfoldable pub acquired : {S : Type 0} → Option S → Action S Bool
acquired none = pure false
acquired (some s') = do put_redis s'; pure true

module _ {S : Type 0} (env : Env S) where
  -- the reply of SET NX: whether the key was set
  unfoldable pub acquire : Key → ℤ → Action S Bool
  unfolding acquired
  acquire key ttl = do
    n ← wrap_err "acquire throttle" (outside env)
    s ← get_redis
    acquired (env.kv.set_nx key "L" ttl (env.clock n) s)

  -- the remaining time, when the key is held
  unfoldable pub refuse : Key → ℕ → Action S Throttle
  refuse key now = do
    n ← wrap_err "get throttle TTL" (outside env)
    s ← get_redis
    pure (record {
      allowed = false;
      retry_after = add_duration now (env.kv.ttl key (env.clock n) s);
    })

  -- TryAcquire
  unfoldable pub try_acquire : String → ℤ → Action S Throttle
  unfolding acquire refuse acquired
  try_acquire key ttl = do
    throw_if (key == "") (plain "throttle key cannot be empty")
    throw_if (is_below ttl 1) (plain "throttle TTL must be greater than zero")
    was_set ← acquire (throttle key) ttl
    now ← time_now env
    if was_set
        then pure (record { allowed = true; retry_after = add_duration now ttl })
        else refuse (throttle key) now

  -- Release
  unfoldable pub release : String → Action S ⊤
  release key = do
    throw_if (key == "") (plain "throttle key cannot be empty")
    wrap_err "release throttle" (outside env)
    s ← get_redis
    put_redis (env.kv.del (throttle key) s)
