-- ===== src/Auth/History/Services/Login.antt =====
-- `Later` through login and refresh of internal/auth/service.go.
use golang_restapi.Base.{ℕ, String, ◌≡◌, refl, sym, ◌∙◌, ap}
use golang_restapi.Nullable
use golang_restapi.Auth.Model.{LoginInput}
use golang_restapi.Auth.Session.{Session}
use golang_restapi.World.State.{Db}
use golang_restapi.World.Logic.{
  Keeps, Any, Keeps-bind, Keeps-pure, Keeps-throw_if, Keeps-check, Keeps-time_now, Keeps-or_throw,
  Keeps-forget,
}
use golang_restapi.Postgres.Audit.{Ctx}
use golang_restapi.Postgres.Keeps.{transact-Keeps}
use golang_restapi.Postgres.Keeps.Sessions.{
  update_session-Keeps, store_session-Keeps, get_session_by_refresh_token_hash-Keeps,
}
use golang_restapi.Postgres.Keeps.Users.{get_user_by_id-Keeps, get_user_by_email-Keeps}
use golang_restapi.Auth.Keeps
use golang_restapi.Auth.Service.Deps.{Service}
use golang_restapi.Auth.Service.Login.{login_tx, login, refresh_tx, refresh_access_token}
use golang_restapi.Auth.History.Later.{Later}
use golang_restapi.Auth.History.Later.Sessions.{
  Told, Told-get_one, Later-update_session, Later-store_session,
}
use golang_restapi.Auth.History.Services.{logged}

module _ {S : Type 0} (s : Service S) (ctx : Ctx) (start : Db) where
  pub login-Later : (inp : LoginInput) → Keeps (Later start) Any (login s ctx inp)
  unfolding login login_tx
  login-Later inp =
      Keeps-bind (Later start)
        (Keeps.optional-Keeps (Later start) _
          (Keeps-forget (Later start) (get_user_by_email-Keeps (Later start) s.env _)))
        λ _ _. Keeps-bind (Later start) (Keeps-or_throw (Later start) _ _) λ _ _.
          Keeps-bind (Later start) (Keeps-check (Later start) _) λ _ _.
            Keeps-bind (Later start) (Keeps.new_session-Keeps (Later start) s.env ctx _ _) λ p _.
              Keeps-bind (Later start) (Keeps.generate_access_token-Keeps (Later start) s _ _ _)
                λ _ _.
                  Keeps-bind (Later start)
                    (transact-Keeps (Later start) s.env (
                      Keeps-bind (Later start)
                        (store_session-Keeps (Later start) s.env p.0
                          (λ db now. Later-store_session start p.0 _ db refl))
                        λ _ _. logged s ctx start _))
                    λ _ _. Keeps-pure (Later start) _ tt

  rotated :
      (t t' : Session)
      → (t'.id ≡ t.id) × (t'.revoked_at ≡ t.revoked_at)
      → Told start t
      → Told start t'
  rotated t t' (same, kept) told id m e =
      ap (λ (n : Nullable.Nullable ℕ). Nullable.not_null n) kept ∙ told id m (sym same ∙ e)

  pub refresh-Later : (token : String) → Keeps (Later start) Any (refresh_access_token s ctx token)
  unfolding refresh_access_token refresh_tx
  refresh-Later token = transact-Keeps (Later start) s.env (
      Keeps-bind (Later start)
        (Keeps.or_invalid-Keeps (Later start) _
          (get_session_by_refresh_token_hash-Keeps (Later start) s.env _))
        λ sess (db, l, e). Keeps-bind (Later start) (Keeps-time_now (Later start) s.env) λ _ _.
          Keeps-bind (Later start) (Keeps-throw_if (Later start) _ _) λ _ _.
            Keeps-bind (Later start) (Keeps-throw_if (Later start) _ _) λ _ _.
              Keeps-bind (Later start) (get_user_by_id-Keeps (Later start) s.env _) λ _ _.
                Keeps-bind (Later start) (Keeps.generate_access_token-Keeps (Later start) s _ _ _)
                  λ _ _.
                    Keeps-bind (Later start) (Keeps.rotate-Keeps (Later start) s.env ctx sess)
                      λ p same.
                        Keeps-bind (Later start)
                          (update_session-Keeps (Later start) s.env p.0 (
                            Later-update_session start p.0
                              (rotated sess p.0 same (Told-get_one start _ db sess l e))))
                          λ _ _. Keeps-pure (Later start) _ tt)
