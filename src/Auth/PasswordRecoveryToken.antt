-- ===== src/Auth/PasswordRecoveryToken.antt =====
-- internal/auth/password_recovery_token.go: single-use tokens to reset a password.
use golang_restapi.Base.{ℕ, Bool, false, [], ◌∷◌, nat_eq, ltb}
use golang_restapi.Errors.{AppError, unauthorized_err, throttled_err}
use golang_restapi.Nullable
use golang_restapi.Nullable.{Nullable, nat_zero}

-- type PasswordRecoveryToken
pub record PasswordRecoveryToken : Type 0 where
  pub id : ℕ
  pub user_id : ℕ
  pub token_hash : ℕ
  pub issued_at : ℕ
  pub expires_at : ℕ
  pub used_at : Nullable ℕ

unfoldable pub err_invalid_password_recovery_token : AppError
unfolding unauthorized_err
err_invalid_password_recovery_token =
    unauthorized_err "invalid or expired password recovery token" ("AUTH_INVALID_RECOV_TOKEN" ∷ [])

unfoldable pub err_password_recovery_throttled : AppError
unfolding throttled_err
err_password_recovery_throttled =
    throttled_err "too many password reset requests, please try again later"
      ("AUTH_RECOVERY_THROTTLED" ∷ [])

-- PasswordRecoveryToken.Expired at the time `now`
unfoldable pub is_expired : ℕ → PasswordRecoveryToken → Bool
is_expired now t = ltb t.expires_at now

-- PasswordRecoveryToken.IsUsed
unfoldable pub is_used : PasswordRecoveryToken → Bool
is_used t = Nullable.not_null t.used_at

-- PasswordRecoveryToken.Use
unfoldable pub mark_used : ℕ → PasswordRecoveryToken → PasswordRecoveryToken
unfolding Nullable.set
mark_used now t = record t { used_at = Nullable.set now false t.used_at }
