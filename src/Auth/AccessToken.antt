-- ===== src/Auth/AccessToken.antt =====
-- VerifyAccessToken of internal/auth/access_token.go. That the signing method is HMAC, and that a
-- token has an expiry, is asked of the JWT library.
use golang_restapi.Base.{ℕ, ◌<◌, String, false, some, [], ◌∷◌, ◌==◌, nat_eq, ◌≡◌, refl, arith}
use golang_restapi.Base.Int.{ℤ}
use golang_restapi.Errors.{AppError, Err, app, plain, join, unauthorized_err}
use golang_restapi.Auth.Model.{add_duration}
use golang_restapi.Auth.Crypto.{sign_access_token}
use golang_restapi.World.Platform.{Env, AccessTokenClaims, Parsed, claims, expired, refused}
use golang_restapi.World.State.{World}
use golang_restapi.World.Action.{ok, Action, pure, throw, ◌>>=◌, ◌>>◌, throw_if, or_throw, time_now}

unfoldable pub err_access_token_expired : AppError
unfolding unauthorized_err
err_access_token_expired = unauthorized_err "access token expired" ("AUTH_EXPIRED" ∷ [])

unfoldable pub err_access_token_invalid : AppError
unfolding unauthorized_err
err_access_token_invalid = unauthorized_err "invalid access token" ("AUTH_INVALID" ∷ [])

-- The claims of a token that was verified.
pub record Verified : Type 0 where
  pub user_id : ℕ
  pub session_id : ℕ
  pub role : String
  pub issued_at : ℕ

-- fmt.Errorf("%w: …", ErrAccessTokenInvalid)
unfoldable pub invalid_because : String → Err
unfolding err_access_token_invalid
invalid_because why = join why (app err_access_token_invalid) (plain why)

module _ {S : Type 0} (env : Env S) where
  -- the checks of the claims, in the code's order
  unfoldable pub check_claims : AccessTokenClaims → Action S Verified
  unfolding invalid_because
  check_claims c = do
    at ← or_throw c.issued_at (invalid_because "missing issued-at claim")
    throw_if (c.session_id == 0) (invalid_because "missing session id claim")
    uid ← or_throw c.subject (invalid_because "invalid subject")
    pure (record { user_id = uid; session_id = c.session_id; role = c.role; issued_at = at })

  abbrev pub check_parsed : Parsed → Action S Verified
  check_parsed (claims c) = check_claims c
  check_parsed expired = throw (app err_access_token_expired)
  check_parsed refused = throw (invalid_because "token refused")

  -- VerifyAccessToken
  unfoldable pub verify_access_token : String → String → Action S Verified
  unfolding check_claims
  verify_access_token secret token = do
    now ← time_now env
    check_parsed (env.parse_jwt secret now token)

  -- What a signature is for: a token is read back, before it expires, as what was signed.
  abbrev pub IsSigned : Type 0
  IsSigned =
      (secret token : String) (c : AccessTokenClaims) (exp now : ℕ)
      → env.sign_jwt secret c ≡ some token
      → c.expires_at ≡ some exp
      → now < exp
      → env.parse_jwt secret now token ≡ claims c

  -- Where the JWT library reads back, before it expires, what it signed: VerifyAccessToken accepts
  -- a token of SignAccessToken until it expires, with the user, the session and the role that it
  -- was signed for, if the session's id is not zero.
  pub sign-verify :
      (secret token : String) (ttl : ℤ) (user_id session_id : ℕ) (role : String) (w w' v : World S)
      → IsSigned
      → sign_access_token env secret ttl user_id session_id role w ≡ (ok token, w')
      → session_id == 0 ≡ false
      → env.clock v.calls < env.numeric_date (add_duration (env.clock w.calls) ttl)
      → (verify_access_token secret token v).0
        ≡ ok (record {
          user_id = user_id;
          session_id = session_id;
          role = role;
          issued_at = env.numeric_date (env.clock w.calls);
        })
  unfolding sign_access_token verify_access_token check_claims ◌>>=◌
  sign-verify secret token ttl user_id session_id role w w' v signs h some_session before =
      let signed : AccessTokenClaims = record {
        subject = some user_id;
        session_id = session_id;
        role = role;
        issued_at = some (env.numeric_date (env.clock w.calls));
        expires_at = some (env.numeric_date (add_duration (env.clock w.calls) ttl));
      } in
      let is_signed : env.sign_jwt secret signed ≡ some token = ground (arith, h) in
      let read = signs secret token signed _ (env.clock v.calls) is_signed refl before in
      ground (arith, read, some_session)
