-- ===== src/Auth/RegistrationToken.antt =====
-- internal/auth/registration_token.go: single-use invitations.
use golang_restapi.Base.{
  ℕ, String, Bool, false, not, ◌&&◌, Option, none, some, [], ◌∷◌, nat_eq, ltb, if◌then◌else◌,
}
use golang_restapi.Errors.{AppError, unauthorized_err}
use golang_restapi.Nullable
use golang_restapi.Nullable.{Nullable, nat_zero}

-- type RegistrationToken
pub record RegistrationToken : Type 0 where
  pub id : ℕ
  pub name : String
  pub email : String
  pub token_hash : ℕ
  pub created_at : ℕ
  pub expires_at : ℕ
  pub used_at : Nullable ℕ
  pub revoked_at : Nullable ℕ

unfoldable pub err_invalid_registration_token : AppError
unfolding unauthorized_err
err_invalid_registration_token =
    unauthorized_err "invalid or expired registration token"
      ("AUTH_INVALID_REGISTRATION_TOKEN" ∷ [])

-- RegistrationToken.IsValid at the time `now`
unfoldable pub is_valid : ℕ → RegistrationToken → Bool
is_valid now t =
    not (Nullable.not_null t.used_at)
    && not (Nullable.not_null t.revoked_at)
    && ltb now t.expires_at

-- RegistrationToken.Use: the validity is read at one time, the mark at a later one
unfoldable pub mark_used : ℕ → ℕ → RegistrationToken → Option RegistrationToken
unfolding is_valid Nullable.set
mark_used now now' t =
    if not (is_valid now t)
    then none
    else some (record t { used_at = Nullable.set now' false t.used_at })
