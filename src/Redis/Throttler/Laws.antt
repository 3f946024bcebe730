-- ===== src/Redis/Throttler/Laws.antt =====
-- Two calls of internal/infrastructure/redis/throttler.go on one key.
use golang_restapi.Base.{
  ℕ, ◌+◌, ◌≤◌, ◌<◌, String, Bool, true, false, none, some, string_eq, ◌≡◌, ◌∙◌, arith, Option-cases,
  ◌⊎◌, inl, inr,
}
use golang_restapi.Base.Int.{ℤ, pos_part}
use golang_restapi.World.Platform.{Env, Key, throttle}
use golang_restapi.Redis.Keys.{KeyLaws, Traffic, Traffic-IsSameAt}
use golang_restapi.World.State.{World}
use golang_restapi.World.Action.{ok, ◌>>=◌}
use golang_restapi.World.Logic.{>>=-ok, throw_if-ok}
use golang_restapi.Redis.Throttler.{Throttle, acquired, acquire, refuse, try_acquire}

module _ {S : Type 0} (env : Env S) where
  -- The first call of the key-value store decides.
  acquire-ok :
      (key : Key) (ttl : ℤ) (w w' : World S) (got : Bool)
      → acquire env key ttl w ≡ (ok got, w')
      → ((got ≡ true) × (env.kv.set_nx key "L" ttl (env.clock w.calls) w.redis ≡ some w'.redis))
        ⊎ ((got ≡ false) × (env.kv.set_nx key "L" ttl (env.clock w.calls) w.redis ≡ none))
  unfolding acquire acquired ◌>>=◌
  acquire-ok key ttl w w' got h =
      elim (Option-cases (env.kv.set_nx key "L" ttl (env.clock w.calls) w.redis)) [
        | inl e ↦ inr (ground (arith, e), e)
        | inr (s', e) ↦ inl (ground (arith, e), ground (arith, e))
      ]

  refuses :
      (key : Key) (now : ℕ) (w w' : World S) (th : Throttle)
      → refuse env key now w ≡ (ok th, w')
      → th.allowed ≡ false
  unfolding refuse ◌>>=◌
  refuses key now w w' th h = ground arith

  try_acquire-ok :
      (key : String) (ttl : ℤ) (w w' : World S) (th : Throttle)
      → try_acquire env key ttl w ≡ (ok th, w')
      → ((th.allowed ≡ true)
          × (env.kv.set_nx (throttle key) "L" ttl (env.clock w.calls) w.redis ≡ some w'.redis))
        ⊎ ((th.allowed ≡ false)
            × (env.kv.set_nx (throttle key) "L" ttl (env.clock w.calls) w.redis ≡ none))
  unfolding try_acquire
  try_acquire-ok key ttl w w' th h = throw_if-ok _ _ _ h λ _ h1. throw_if-ok _ _ _ h1 λ _ h2.
      >>=-ok _ _ h2 λ got w1 e1 h3. >>=-ok _ _ h3 λ now w2 e2 h4.
        elim (acquire-ok (throttle key) ttl w w1 got e1) [
          | inl (was_set, e) ↦ inl (ground arith, ground arith)
          | inr (was_held, e) ↦ inr (refuses (throttle key) now w2 w' th (ground arith), e)
        ]

  -- Where Redis obeys the laws of keys: after a caller was allowed, and after any calls that neither
  -- set nor delete the key (so that Release was not called on it), a call on the same key that
  -- returns is refused, whatever time to live it asks for, until the first one's is over.
  pub try_acquire-excludes :
      (key : String) (ttl ttl' : ℤ) (w w' v v' : World S) (th th' : Throttle)
      → KeyLaws env.kv
      → try_acquire env key ttl w ≡ (ok th, w')
      → th.allowed ≡ true
      → Traffic env.kv (throttle key) w'.redis v.redis
      → env.clock w.calls ≤ env.clock v.calls
      → env.clock v.calls < env.clock w.calls + pos_part ttl
      → try_acquire env key ttl' v ≡ (ok th', v')
      → th'.allowed ≡ false
  try_acquire-excludes key ttl ttl' w w' v v' th th' laws first allowed since after within second =
      elim (try_acquire-ok key ttl w w' th first) [
        | inr (refused, _) ↦ absurd (cc)
        | inl (_, held) ↦ elim (try_acquire-ok key ttl' v v' th' second) [
          | inr (refused, _) ↦ refused
          | inl (_, held') ↦
              let still : env.kv.get (throttle key) (env.clock v.calls) v.redis ≡ some "L" =
                Traffic-IsSameAt env.kv (throttle key) w'.redis laws since (env.clock v.calls)
                ∙ laws.kept_nx (throttle key) "L" ttl (env.clock w.calls) (env.clock v.calls)
                    w.redis w'.redis held after within in
              let refused =
                laws.held (throttle key) "L" "L" ttl' (env.clock v.calls) v.redis still in
              absurd (cc (refused, held'))
        ]
      ]
