-- ===== src/Tests/Markers.antt =====
-- Transactions, markers, throttles and permissions at concrete values.
use golang_restapi.Base.{
  ℕ, ◌+◌, ◌*◌, ◌≤◌, ◌<◌, String, true, false, ◌≡◌, refl, some, none, [], ◌∷◌, arith, ◌↔◌, ◌⊎◌, ◌||◌,
}
use golang_restapi.Base.Int.{ℤ, pos, pos_part}
use golang_restapi.Base.Lists.{all}
use golang_restapi.Errors.{Err, plain}
use golang_restapi.Rbac.{register_permissions, can}
use golang_restapi.Rbac.Laws.{is_granted, is_listed, granted-register, can-granted}
use golang_restapi.Redis.Keys.{Traffic, begin, set}
use golang_restapi.World.Platform.{throttle, revoked_user, revoked_session}
use golang_restapi.World.State.{World}
use golang_restapi.World.Action.{ok, err, throw, ◌>>=◌, ◌>>◌, ⊤, Action}
use golang_restapi.Postgres.Transact.{transact}
use golang_restapi.Postgres.Transact.Laws.{transact-all_or_nothing}
use golang_restapi.Redis.Revocation.{
  unix_epoch, second, revocation_ttl, revocation_skew, revoked_by_watermark, decide,
  revoke_all_for_user, is_revoked,
}
use golang_restapi.Redis.Revocation.Laws.{marker-outlives_token, decide-accepts, revoke_all-revokes}
use golang_restapi.Postgres.Sessions.{revoke_user_sessions}
use golang_restapi.Redis.Throttler.{Throttle, try_acquire}
use golang_restapi.Redis.Throttler.Laws.{try_acquire-excludes}
use golang_restapi.Auth.Service.Deps.{perm_tables, perm_register_user}
use golang_restapi.Tests.Store.{
  Store, store, store-KeyLaws, parse_unary, parse-unary, unary-nonempty,
}
use golang_restapi.Tests.Fixture.{platform, world}

abbrev lifetime : ℤ
lifetime = pos (900 * second)

covers : revoked_by_watermark (unix_epoch + 3) 7 ≡ true
unfolding revoked_by_watermark
covers = refl

marker-outlives_token_example :
    unix_epoch + 3 + 900 * second ≤ unix_epoch + 7 + pos_part (revocation_ttl lifetime)
marker-outlives_token_example = marker-outlives_token lifetime (unix_epoch + 3) 7 refl covers

abbrev session_marker : String
session_marker = ""

abbrev user_marker : String
user_marker = "111"

decide-accepts_example :
    (decide parse_unary user_marker session_marker (unix_epoch + 9 * second) ≡ ok false) ↔ (
      (session_marker ≡ "")
      × ((user_marker ≡ "")
          ⊎ ((w : ℕ) × (parse_unary user_marker ≡ some (pos w))
              × (0 < w)
              × (unix_epoch + w + revocation_skew < unix_epoch + 9 * second))))
decide-accepts_example =
    decide-accepts parse_unary user_marker session_marker (unix_epoch + 9 * second)

abbrev marked : World Store
marked = (revoke_all_for_user platform lifetime 7 world).1

marks : revoke_all_for_user platform lifetime 7 world ≡ (ok tt, marked)
unfolding revoke_all_for_user ◌>>=◌
marks = refl

lasting : revocation_ttl lifetime ≡ pos (905 * second)
unfolding revocation_ttl
lasting = refl

-- after another request was throttled
abbrev later : World Store
later = record marked {
  redis = store.set (throttle "recover-password:ben") "L" lifetime 5 marked.redis;
  calls = 10;
}

since : Traffic store (revoked_user 7) marked.redis later.redis
since = set begin (throttle "recover-password:ben") "L" lifetime 5 λ e. absurd (cc)

revoke_all-revokes_example :
    ¬ (is_revoked platform lifetime 7 41 unix_epoch later ≡ (ok false, marked))
revoke_all-revokes_example =
    revoke_all-revokes platform lifetime 7 41 unix_epoch world marked later marked store-KeyLaws
      parse-unary unary-nonempty refl marks (ground arith) since (ground arith)
      (ground (arith, lasting))

abbrev held : World Store
held = (try_acquire platform "recover-password:ann" lifetime world).1

abbrev granted : Throttle
granted = record { allowed = true; retry_after = unix_epoch + 2 + 900 * second }

abbrev refused : Throttle
refused = record { allowed = false; retry_after = unix_epoch + 900 * second }

acquires : try_acquire platform "recover-password:ann" lifetime world ≡ (ok granted, held)
unfolding try_acquire store ◌>>=◌
acquires = refl

-- after a session was revoked
abbrev held_still : World Store
held_still = record held {
  redis = store.set (revoked_session 41) "1" lifetime 5 held.redis;
  calls = 10;
}

held_since : Traffic store (throttle "recover-password:ann") held.redis held_still.redis
held_since = set begin (revoked_session 41) "1" lifetime 5 λ e. absurd (cc)

again :
    try_acquire platform "recover-password:ann" lifetime held_still
    ≡ (ok refused, (try_acquire platform "recover-password:ann" lifetime held_still).1)
unfolding try_acquire store ◌>>=◌
again = refl

try_acquire-excludes_example : refused.allowed ≡ false
try_acquire-excludes_example =
    try_acquire-excludes platform "recover-password:ann" lifetime lifetime world held held_still
      (try_acquire platform "recover-password:ann" lifetime held_still).1 granted refused
      store-KeyLaws acquires refl held_since (ground arith) (ground arith) again

granted-register_example :
    is_granted (register_permissions [] perm_tables) "admin" perm_register_user
    ≡ is_granted [] "admin" perm_register_user || is_listed perm_tables "admin" perm_register_user
granted-register_example = granted-register [] perm_tables "admin" perm_register_user

can-granted_example :
    (can perm_tables "user" (perm_register_user ∷ []) ≡ none)
    ↔ (all (is_granted perm_tables "user") (perm_register_user ∷ []) ≡ true)
can-granted_example = can-granted perm_tables "user" perm_register_user []

abbrev failing : Action Store ⊤
failing = revoke_user_sessions platform 7 >> throw (plain "no")

-- a transaction whose function writes and then fails
transact-all_or_nothing_example :
    ((w0 w1 : World Store) × (a : ⊤) × (w0.db ≡ world.db)
      × (failing w0 ≡ (ok a, w1))
      × ((transact platform failing world).0 ≡ ok a)
      × ((transact platform failing world).1.db ≡ w1.db))
    ⊎ ((e : Err) × ((transact platform failing world).0 ≡ err e)
        × ((transact platform failing world).1.db ≡ world.db))
transact-all_or_nothing_example = transact-all_or_nothing platform failing world
