-- ===== src/Redis/Revocation.antt =====
-- internal/infrastructure/redis/revocation.go: markers that revoke stateless access tokens.
pub mod Laws
use golang_restapi.Base.{
  ℕ, ◌+◌, ◌-◌, ◌*◌, String, Bool, true, false, not, Option, none, some, ◌==◌, string_eq, ltb,
  if◌then◌else◌,
}
use golang_restapi.Base.Int.{ℤ, pos, pos_part, is_below, is_zero}
use golang_restapi.Errors.{plain}
use golang_restapi.World.Platform.{Env, Key, revoked_user, revoked_session}
use golang_restapi.World.Action.{
  ⊤, Result, ok, err, Action, pure, ◌>>=◌, get_redis, put_redis, time_now, outside, wrap_err,
}

abbrev pub second : ℕ
second = 1_000_000_000

abbrev pub revocation_skew : ℕ
revocation_skew = 5 * second

-- 1970-01-01T00:00:00Z, from Go's zero time
abbrev pub unix_epoch : ℕ
unix_epoch = 62_135_596_800 * second

-- revocationTTL
unfoldable pub revocation_ttl : ℤ → ℤ
revocation_ttl jwt_ttl =
    if is_below jwt_ttl 1 then pos 0 else pos (pos_part jwt_ttl + revocation_skew)

-- revokedByWatermark: not issuedAt.After(watermark + skew)
unfoldable pub revoked_by_watermark : ℕ → ℕ → Bool
revoked_by_watermark issued_at watermark =
    not (ltb (unix_epoch + watermark + revocation_skew) issued_at)

-- markerValue on a reply that is absent or a string
abbrev pub marker_value : Option String → String
marker_value none = ""
marker_value (some v) = v

-- the watermark's part of `decide`; `parse` is strconv.ParseInt
unfoldable pub decide_watermark : Option ℤ → ℕ → Result Bool
unfolding revoked_by_watermark
decide_watermark none issued_at = err (plain "parse revocation watermark")
decide_watermark (some w) issued_at =
    if is_below w 1
    then err (plain "invalid revocation watermark")
    else ok (revoked_by_watermark issued_at (pos_part w))

unfoldable pub decide : (String → Option ℤ) → String → String → ℕ → Result Bool
unfolding decide_watermark
decide parse user_marker session_marker issued_at =
    if not (session_marker == "")
    then ok true
    else if user_marker == ""
    then ok false
    else decide_watermark (parse user_marker) issued_at

module _ {S : Type 0} (env : Env S) (jwt_ttl : ℤ) where
  -- IsRevoked: one MGET
  unfoldable pub is_revoked : ℕ → ℕ → ℕ → Action S Bool
  unfolding decide
  is_revoked user_id session_id issued_at = do
    n ← wrap_err "get revocation markers" (outside env)
    s ← get_redis
    let user_marker = marker_value (env.kv.get (revoked_user user_id) (env.clock n) s)
    let session_marker = marker_value (env.kv.get (revoked_session session_id) (env.clock n) s)
    λ w. (decide env.parse_int user_marker session_marker issued_at, w)

  -- client.Set
  unfoldable pub set_marker : String → Key → String → Action S ⊤
  set_marker msg key v = do
    n ← wrap_err msg (outside env)
    s ← get_redis
    put_redis (env.kv.set key v (revocation_ttl jwt_ttl) (env.clock n) s)

  -- RevokeAllForUser
  unfoldable pub revoke_all_for_user : ℕ → Action S ⊤
  unfolding set_marker revocation_ttl
  revoke_all_for_user user_id = if is_zero (revocation_ttl jwt_ttl) then pure tt else do
    now ← time_now env
    set_marker "revoke user tokens" (revoked_user user_id) (env.format_int (now - unix_epoch))

  -- RevokeSession
  unfoldable pub revoke_session : ℕ → Action S ⊤
  unfolding set_marker revocation_ttl
  revoke_session session_id =
      if is_zero (revocation_ttl jwt_ttl)
      then pure tt
      else set_marker "revoke session" (revoked_session session_id) "1"
