-- ===== src/Auth/Session.antt =====
-- internal/auth/session.go: the session entity.
use golang_restapi.Base.{ℕ, String, Bool, false, [], ◌∷◌, nat_eq, ltb}
use golang_restapi.Errors.{AppError, Err, unauthorized_err}
use golang_restapi.Nullable
use golang_restapi.Nullable.{Nullable, nat_zero}

-- type Session. A SHA-256 sum is the number that its bytes spell.
pub record Session : Type 0 where
  pub id : ℕ
  pub user_id : ℕ
  pub refresh_token_hash : ℕ
  pub ip_addr : String
  pub user_agent : String
  pub accessed_at : ℕ
  pub created_at : ℕ
  pub expires_at : ℕ
  pub revoked_at : Nullable ℕ

unfoldable pub err_session_invalid : AppError
unfolding unauthorized_err
err_session_invalid =
    unauthorized_err "session has been expired or revoked" ("AUTH_INVALID_SESSION" ∷ [])

abbrev pub err_session_empty_uid : Err
err_session_empty_uid = Err.plain "user_id must not be empty"

abbrev pub err_session_invalid_ttl : Err
err_session_invalid_ttl = Err.plain "session ttl must be greater than 0"

-- Session.IsExpired at the time `now`
unfoldable pub is_expired : ℕ → Session → Bool
is_expired now s = ltb s.expires_at now

-- Session.Revoke
unfoldable pub revoke : ℕ → Session → Session
unfolding Nullable.set
revoke now s = record s { revoked_at = Nullable.set now false s.revoked_at }
