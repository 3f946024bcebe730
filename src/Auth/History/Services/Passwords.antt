-- ===== src/Auth/History/Services/Passwords.antt =====
-- `Later` through the password methods of internal/auth/service.go.
use golang_restapi.Base.{ℕ, String, true, false, ◌||◌, ◌≡◌, arith}
use golang_restapi.Nullable
use golang_restapi.Auth.Model.{ResetPasswordInput, ChangePasswordInput}
use golang_restapi.Auth.PasswordRecoveryToken
use golang_restapi.Auth.PasswordRecoveryToken.{PasswordRecoveryToken}
use golang_restapi.World.State.{Db}
use golang_restapi.World.Logic.{
  Keeps, Any, Keeps-bind, Keeps-pure, Keeps-throw_if, Keeps-check, Keeps-time_now, Keeps-ignore_err,
}
use golang_restapi.Postgres.Audit.{Ctx}
use golang_restapi.Postgres.Keeps.{transact-Keeps}
use golang_restapi.Postgres.Keeps.Sessions.{revoke_user_sessions-Keeps}
use golang_restapi.Postgres.Keeps.Tokens.{
  get_password_recovery_token-Keeps, store_password_recovery_token-Keeps,
  update_password_recovery_token-Keeps,
}
use golang_restapi.Postgres.Keeps.Users.{
  get_user_by_id-Keeps, get_user_by_email-Keeps, update_user-Keeps,
}
use golang_restapi.Auth.Keeps
use golang_restapi.Auth.Service.Deps.{Service}
use golang_restapi.Auth.Service.Passwords.{
  recover_password_tx, recover_password, reset_password_tx, reset_password, change_password_tx,
  change_password,
}
use golang_restapi.Auth.History.Later.{Later, IsUsed}
use golang_restapi.Auth.History.Later.Sessions.{Later-revoke_sessions}
use golang_restapi.Auth.History.Later.Tokens.{
  ToldUsed, ToldUsed-get_one, Later-update_recovery, Later-store_recovery, Later-users,
}
use golang_restapi.Auth.History.Services.{logged}

module _ {S : Type 0} (s : Service S) (ctx : Ctx) (start : Db) where
  pub recover_password-Later :
      (email : String) → Keeps (Later start) Any (recover_password s ctx email)
  unfolding recover_password recover_password_tx
  recover_password-Later email =
      Keeps-bind (Later start) (Keeps.try_acquire-Keeps (Later start) s.env _ _) λ _ _.
        Keeps-bind (Later start) (Keeps-throw_if (Later start) _ _) λ _ _.
          Keeps-bind (Later start)
            (transact-Keeps (Later start) s.env (
              Keeps-bind (Later start) {G = Any} (get_user_by_email-Keeps (Later start) s.env _)
                λ _ _.
                  Keeps-bind (Later start)
                    (Keeps.new_password_recovery_token-Keeps (Later start) s.env _ _)
                    λ p _.
                      Keeps-bind (Later start)
                        (store_password_recovery_token-Keeps (Later start) s.env p.0
                          (λ db id. Later-store_recovery start p.0 _ db))
                        λ _ _.
                          Keeps-bind (Later start) (logged s ctx start _)
                            λ _ _. Keeps-pure (Later start) _ tt))
            λ _ _.
              Keeps-bind (Later start) {F = Any} (Keeps.produce-Keeps (Later start) s.env _)
                λ _ _. Keeps-pure (Later start) _ tt

  fresh_recovery :
      (t : PasswordRecoveryToken) (now used : ℕ)
      → ToldUsed start t
      → PasswordRecoveryToken.is_expired now t || PasswordRecoveryToken.is_used t ≡ false
      → (id : ℕ) → IsUsed id start.recovery_tokens
      → ¬ ((PasswordRecoveryToken.mark_used used t).id ≡ id)
  unfolding PasswordRecoveryToken.mark_used PasswordRecoveryToken.is_used
  fresh_recovery t now used told open' id m e =
      let known : Nullable.not_null t.used_at ≡ true = told id m e in ground arith

  pub reset_password-Later :
      (inp : ResetPasswordInput) → Keeps (Later start) Any (reset_password s ctx inp)
  unfolding reset_password reset_password_tx
  reset_password-Later inp =
      Keeps-bind (Later start)
        (transact-Keeps (Later start) s.env (
          Keeps-bind (Later start)
            (Keeps.or_invalid-Keeps (Later start) _
              (get_password_recovery_token-Keeps (Later start) s.env _))
            λ t (db, l, e). Keeps-bind (Later start) (Keeps-time_now (Later start) s.env) λ now _.
              Keeps-bind (Later start) (Keeps-throw_if (Later start) _ _) λ _ open'.
                Keeps-bind (Later start) (get_user_by_id-Keeps (Later start) s.env _) λ u _.
                  Keeps-bind (Later start) (Keeps.hash_password-Keeps (Later start) s.env _) λ _ _.
                    Keeps-bind (Later start) (Keeps-time_now (Later start) s.env) λ used _.
                      Keeps-bind (Later start)
                        (update_password_recovery_token-Keeps (Later start) s.env
                          (PasswordRecoveryToken.mark_used used t)
                          (Later-update_recovery start (PasswordRecoveryToken.mark_used used t)
                            (fresh_recovery t now used (ToldUsed-get_one start _ db t l e) open')))
                        λ _ _.
                          Keeps-bind (Later start)
                            (update_user-Keeps (Later start) s.env _ (Later-users start))
                            λ _ _.
                              Keeps-bind (Later start)
                                (revoke_user_sessions-Keeps (Later start) s.env _
                                  (λ db' at. Later-revoke_sessions start _ at db'))
                                λ _ _.
                                  Keeps-bind (Later start) (logged s ctx start _)
                                    λ _ _. Keeps-pure (Later start) _ tt))
        λ _ _.
          Keeps-ignore_err (Later start) (Keeps.revoke_all_for_user-Keeps (Later start) s.env _ _)

  pub change_password-Later :
      (user_id : ℕ) (inp : ChangePasswordInput)
      → Keeps (Later start) Any (change_password s ctx user_id inp)
  unfolding change_password change_password_tx
  change_password-Later user_id inp = Keeps-bind (Later start) (Keeps-check (Later start) _) λ _ _.
      Keeps-bind (Later start) (get_user_by_id-Keeps (Later start) s.env _) λ _ _.
        Keeps-bind (Later start) (Keeps-check (Later start) _) λ _ _.
          Keeps-bind (Later start) (Keeps.hash_password-Keeps (Later start) s.env _) λ _ _.
            Keeps-bind (Later start)
              (transact-Keeps (Later start) s.env (
                Keeps-bind (Later start)
                  (update_user-Keeps (Later start) s.env _ (Later-users start))
                  λ _ _.
                    Keeps-bind (Later start)
                      (revoke_user_sessions-Keeps (Later start) s.env _
                        (λ db at. Later-revoke_sessions start _ at db))
                      λ _ _. logged s ctx start _))
              λ _ _.
                Keeps-ignore_err (Later start)
                  (Keeps.revoke_all_for_user-Keeps (Later start) s.env _ _)
