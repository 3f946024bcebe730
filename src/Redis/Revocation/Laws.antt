-- ===== src/Redis/Revocation/Laws.antt =====
-- What the markers of internal/infrastructure/redis/revocation.go do to access tokens.
use golang_restapi.Base.{
  ℕ, ◌+◌, ◌-◌, ◌≤◌, ◌<◌, String, Bool, true, false, Option, none, some, ◌==◌, string_eq, ◌≡◌, ◌≢◌,
  refl, ◌∙◌, ◌↔◌, arith, str_beq_iff, ◌⊎◌, inl, inr, Bool-cases,
}
use golang_restapi.Base.Int.{ℤ, pos, negsuc, pos_part, is_below, is_zero}
use golang_restapi.World.Platform.{Env, Key, revoked_user, revoked_session}
use golang_restapi.Redis.Keys.{KeyLaws, Traffic, Traffic-IsSameAt}
use golang_restapi.World.State.{World}
use golang_restapi.World.Action.{ok, ◌>>=◌}
use golang_restapi.Redis.Revocation.{
  revocation_skew, unix_epoch, revocation_ttl, revoked_by_watermark, marker_value, decide_watermark,
  decide, is_revoked, set_marker, revoke_all_for_user,
}

-- A marker that is set when it revokes a token outlives the token: it stays in Redis for at least
-- as long as a token of the configured lifetime that it revokes, whenever that was issued.
pub marker-outlives_token :
    (jwt_ttl : ℤ) (issued_at watermark : ℕ)
    → is_below jwt_ttl 1 ≡ false
    → revoked_by_watermark issued_at watermark ≡ true
    → issued_at + pos_part jwt_ttl ≤ unix_epoch + watermark + pos_part (revocation_ttl jwt_ttl)
unfolding revoked_by_watermark revocation_ttl
marker-outlives_token (pos n) issued_at watermark h r = ground arith
marker-outlives_token (negsuc n) issued_at watermark h r = absurd (cc)

-- The issue time exceeds a positive watermark by more than the skew.
IsAfter : Option ℤ → ℕ → Type 0
IsAfter o issued_at =
    (w : ℕ) × (o ≡ some (pos w)) × (0 < w) × (unix_epoch + w + revocation_skew < issued_at)

watermark-accepts :
    (o : Option ℤ) (issued_at : ℕ) → decide_watermark o issued_at ≡ ok false → IsAfter o issued_at
unfolding decide_watermark revoked_by_watermark IsAfter
watermark-accepts none issued_at h = absurd (cc)
watermark-accepts (some (pos w)) issued_at h = (w, refl, ground arith, ground arith)
watermark-accepts (some (negsuc w)) issued_at h = absurd (cc)

after-accepted :
    (o : Option ℤ) (issued_at : ℕ) → IsAfter o issued_at → decide_watermark o issued_at ≡ ok false
unfolding decide_watermark revoked_by_watermark IsAfter
after-accepted o issued_at (w, e, some_time, later) = rw e (ground arith)

-- A token is accepted exactly if its session has no marker, and its user has none or one whose
-- watermark is a positive number that the token's issue time exceeds by more than the skew.
pub decide-accepts :
    (parse : String → Option ℤ) (user_marker session_marker : String) (issued_at : ℕ)
    → (decide parse user_marker session_marker issued_at ≡ ok false) ↔ (
        (session_marker ≡ "")
        × ((user_marker ≡ "")
            ⊎ ((w : ℕ) × (parse user_marker ≡ some (pos w))
                × (0 < w)
                × (unix_epoch + w + revocation_skew < issued_at))))
unfolding decide IsAfter
decide-accepts parse user_marker session_marker issued_at =
    elim (Bool-cases (session_marker == "")) [
      | inr marked ↦ (
        λ h. absurd (ground (arith, marked)),
        λ (e, _). absurd (ground (arith, marked, (str_beq_iff session_marker "").1 e)),
      )
      | inl no_session ↦ elim (Bool-cases (user_marker == "")) [
        | inl no_user ↦ (
          λ h. (
            (str_beq_iff session_marker "").0 no_session,
            inl ((str_beq_iff user_marker "").0 no_user),
          ),
          λ h. ground (arith, no_session, no_user),
        )
        | inr user ↦ (
          λ h. (
            (str_beq_iff session_marker "").0 no_session,
            inr (
                watermark-accepts (parse user_marker) issued_at (ground (arith, no_session, user))),
          ),
          λ (_, h). elim h [
            | inl e ↦ absurd (ground (arith, user, (str_beq_iff user_marker "").1 e))
            | inr later ↦
                ground (arith, no_session, user, after-accepted (parse user_marker) issued_at later)
          ],
        )
      ]
    ]

module _ {S : Type 0} (env : Env S) (jwt_ttl : ℤ) where
  -- What RevokeAllForUser has written.
  set_marker-ok :
      (msg : String) (key : Key) (v : String) (w w' : World S)
      → set_marker env jwt_ttl msg key v w ≡ (ok tt, w')
      → w'.redis ≡ env.kv.set key v (revocation_ttl jwt_ttl) (env.clock w.calls) w.redis
  unfolding set_marker ◌>>=◌
  set_marker-ok msg key v w w' h = ground arith

  lasts : is_below jwt_ttl 1 ≡ false → is_zero (revocation_ttl jwt_ttl) ≡ false
  unfolding revocation_ttl
  lasts h = ground arith

  revoke_all-written :
      (user_id : ℕ) (w w' : World S)
      → is_below jwt_ttl 1 ≡ false
      → revoke_all_for_user env jwt_ttl user_id w ≡ (ok tt, w')
      → w'.redis
        ≡ env.kv.set
            (revoked_user user_id)
            (env.format_int (env.clock w.calls - unix_epoch))
            (revocation_ttl jwt_ttl)
            (env.clock (w.calls + 1))
            w.redis
  unfolding revoke_all_for_user ◌>>=◌
  revoke_all-written user_id w w' lives h =
      set_marker-ok "revoke user tokens" (revoked_user user_id)
        (env.format_int (env.clock w.calls - unix_epoch)) (record w { calls = w.calls + 1 }) w'
        (ground (arith, lasts lives))

  is_revoked-decides :
      (user_id session_id issued_at : ℕ) (v v' : World S) (b : Bool)
      → is_revoked env jwt_ttl user_id session_id issued_at v ≡ (ok b, v')
      → decide env.parse_int
          (marker_value (env.kv.get (revoked_user user_id) (env.clock v.calls) v.redis))
          (marker_value (env.kv.get (revoked_session session_id) (env.clock v.calls) v.redis))
          issued_at
        ≡ ok b
  unfolding is_revoked ◌>>=◌
  is_revoked-decides user_id session_id issued_at v v' b h = ground arith

  -- Where Redis obeys the laws of keys, and ParseInt reads what FormatInt wrote: once
  -- RevokeAllForUser has succeeded, while its marker lives, and after any calls that neither set
  -- nor delete the marker, IsRevoked lets no access token of the user pass that was issued no later
  -- than the revocation.
  pub revoke_all-revokes :
      (user_id session_id issued_at : ℕ) (w w' v v' : World S)
      → KeyLaws env.kv
      → ((n : ℕ) → env.parse_int (env.format_int n) ≡ some (pos n))
      → ((n : ℕ) → env.format_int n ≢ "")
      → is_below jwt_ttl 1 ≡ false
      → revoke_all_for_user env jwt_ttl user_id w ≡ (ok tt, w')
      → issued_at ≤ env.clock w.calls
      → Traffic env.kv (revoked_user user_id) w'.redis v.redis
      → env.clock (w.calls + 1) ≤ env.clock v.calls
      → env.clock v.calls < env.clock (w.calls + 1) + pos_part (revocation_ttl jwt_ttl)
      → ¬ (is_revoked env jwt_ttl user_id session_id issued_at v ≡ (ok false, v'))
  revoke_all-revokes user_id session_id issued_at w w' v v' laws parses spells lives h old since
        after within asked =
      let mark = env.format_int (env.clock w.calls - unix_epoch) in
      let written = revoke_all-written user_id w w' lives h in
      let found =
        laws.kept (revoked_user user_id) mark (revocation_ttl jwt_ttl) (env.clock (w.calls + 1))
          (env.clock v.calls) w.redis after within in
      let read : env.kv.get (revoked_user user_id) (env.clock v.calls) v.redis ≡ some mark =
        Traffic-IsSameAt env.kv (revoked_user user_id) w'.redis laws since (env.clock v.calls)
        ∙ rw written found in
      let decided = is_revoked-decides user_id session_id issued_at v v' false asked in
      let decided' : decide env.parse_int mark
            (marker_value (env.kv.get (revoked_session session_id) (env.clock v.calls) v.redis))
            issued_at
          ≡ ok false =
        rw read at decided in
      let (_, accepted) = (decide-accepts env.parse_int mark _ issued_at).0 decided' in
      elim accepted [
        | inl e ↦ absurd (spells _ e)
        | inr (k, e, some_time, later) ↦
            let same_number : pos k ≡ pos (env.clock w.calls - unix_epoch) =
              cc (e, parses (env.clock w.calls - unix_epoch)) in
            absurd (ground (arith, same_number))
      ]
