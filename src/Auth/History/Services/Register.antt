-- ===== src/Auth/History/Services/Register.antt =====
-- `Later` through the registration methods of internal/auth/service.go.
use golang_restapi.Base.{ℕ, String, true, some, ◌≡◌, arith}
use golang_restapi.Auth.Model.{RegisterInput, CompleteRegistrationInput}
use golang_restapi.Auth.RegistrationToken
use golang_restapi.Auth.RegistrationToken.{RegistrationToken}
use golang_restapi.World.State.{Db}
use golang_restapi.World.Logic.{
  Keeps, Any, Keeps-bind, Keeps-pure, Keeps-wrap_err, Keeps-throw_if, Keeps-check, Keeps-time_now,
  Keeps-outside, Keeps-or_throw, Keeps-forget,
}
use golang_restapi.Postgres.Audit.{Ctx}
use golang_restapi.Postgres.Keeps.{transact-Keeps}
use golang_restapi.Postgres.Keeps.Tokens.{
  get_registration_token-Keeps, store_registration_token-Keeps, update_registration_token-Keeps,
  revoke_registration_tokens-Keeps,
}
use golang_restapi.Postgres.Keeps.Users.{get_user_by_email-Keeps, store_user-Keeps}
use golang_restapi.Auth.Keeps
use golang_restapi.Auth.Service.Deps.{Service}
use golang_restapi.Auth.Service.Register.{
  register_tx, register, new_user, complete_registration_tx, finish_registration,
}
use golang_restapi.Auth.History.Later.{Later, IsSpent, is_spent}
use golang_restapi.Auth.History.Later.Tokens.{
  ToldSpent, ToldSpent-get_one, Later-update_registration, Later-revoke_registrations,
  Later-store_registration, Later-users,
}
use golang_restapi.Auth.History.Services.{logged}

module _ {S : Type 0} (s : Service S) (ctx : Ctx) (start : Db) where
  pub register-Later : (inp : RegisterInput) → Keeps (Later start) Any (register s ctx inp)
  unfolding register register_tx
  register-Later inp = Keeps-bind (Later start) (Keeps-check (Later start) _) λ _ _.
      Keeps-bind (Later start)
        (transact-Keeps (Later start) s.env (
          Keeps-bind (Later start)
            (Keeps.optional-Keeps (Later start) _
              (Keeps-forget (Later start) (get_user_by_email-Keeps (Later start) s.env _)))
            λ u _. Keeps-bind (Later start) (Keeps-throw_if (Later start) _ _) λ _ _.
              Keeps-bind (Later start)
                (Keeps-wrap_err (Later start) _ (
                  revoke_registration_tokens-Keeps (Later start) s.env _
                    (λ db now. Later-revoke_registrations start _ now db)))
                λ _ _.
                  Keeps-bind (Later start)
                    (Keeps-wrap_err (Later start) _
                      (Keeps.new_registration_token-Keeps (Later start) s.env _ _ _))
                    λ p _.
                      Keeps-bind (Later start)
                        (Keeps-wrap_err (Later start) _ (
                          store_registration_token-Keeps (Later start) s.env p.0
                            (λ db id. Later-store_registration start _ _ db)))
                        λ stored _.
                          Keeps-bind (Later start) (logged s ctx start _)
                            λ _ _. Keeps-pure (Later start) _ tt))
        λ _ _. Keeps-wrap_err (Later start) _ (Keeps.produce-Keeps (Later start) s.env _)

  new_user-Later :
      (name email hash : String) → Keeps (Later start) Any (new_user s ctx name email hash)
  unfolding new_user
  new_user-Later name email hash =
      Keeps-bind (Later start) (Keeps-outside (Later start) s.env) λ _ _.
        Keeps-bind (Later start) (Keeps-time_now (Later start) s.env) λ _ _.
          Keeps-bind (Later start) (Keeps-check (Later start) _)
            λ _ _. Keeps-pure (Later start) _ tt

  -- Only a token that is not spent passes the checks of Use, and it keeps its id.
  fresh_registration :
      (t t' : RegistrationToken) (now now' : ℕ)
      → ToldSpent start t
      → RegistrationToken.mark_used now now' t ≡ some t'
      → (id : ℕ) → IsSpent id start.registration_tokens
      → ¬ (t'.id ≡ id)
  unfolding RegistrationToken.mark_used
  fresh_registration t t' now now' told used id spent e =
      let known : is_spent t ≡ true = told id spent (ground arith) in ground arith

  pub finish_registration-Later :
      (inp : CompleteRegistrationInput) → Keeps (Later start) Any (finish_registration s ctx inp)
  unfolding finish_registration complete_registration_tx
  finish_registration-Later inp = transact-Keeps (Later start) s.env (
      Keeps-bind (Later start)
        (Keeps.or_invalid-Keeps (Later start) _
          (get_registration_token-Keeps (Later start) s.env _))
        λ t (db, l, e). Keeps-bind (Later start) (Keeps-time_now (Later start) s.env) λ _ _.
          Keeps-bind (Later start) (Keeps-throw_if (Later start) _ _) λ _ _.
            Keeps-bind (Later start) (Keeps.hash_password-Keeps (Later start) s.env _) λ _ _.
              Keeps-bind (Later start) (new_user-Later _ _ _) λ u _.
                Keeps-bind (Later start) (Keeps-time_now (Later start) s.env) λ now _.
                  Keeps-bind (Later start) (Keeps-time_now (Later start) s.env) λ now' _.
                    Keeps-bind (Later start) (Keeps-or_throw (Later start) _ _) λ t' used.
                      Keeps-bind (Later start)
                        (update_registration_token-Keeps (Later start) s.env t' (
                          Later-update_registration start t' (
                            fresh_registration t t' now now' (ToldSpent-get_one start _ db t l e)
                              used)))
                        λ _ _.
                          Keeps-bind (Later start)
                            (store_user-Keeps (Later start) s.env u
                              (λ db' now p _ _. Later-users start db' _ p))
                            λ _ _. logged s ctx start _)
