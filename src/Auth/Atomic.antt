-- ===== src/Auth/Atomic.antt =====
-- Errors of the methods of internal/auth/service.go, and the tables.
use golang_restapi.Base.{ℕ, String, ◌≡◌, refl, sym, ◌∙◌, ap}
use golang_restapi.Errors.{Err}
use golang_restapi.Auth.Model.{
  CompleteRegistrationInput, LoginInput, ResetPasswordInput, ChangePasswordInput,
}
use golang_restapi.World.State.{Db, World}
use golang_restapi.World.Action.{Result, ok, err, Action, ◌>>=◌}
use golang_restapi.World.Logic.{>>=-err, Keeps-forget, Keeps-check, Keeps-or_throw}
use golang_restapi.World.Runs.{Reads, Reads-ok}
use golang_restapi.Postgres.Audit.{Ctx}
use golang_restapi.Postgres.Transact.Laws.{undone}
use golang_restapi.Postgres.Keeps.Users.{get_user_by_id-Keeps, get_user_by_email-Keeps}
use golang_restapi.Auth.Keeps
use golang_restapi.Auth.Service.Deps.{Service}
use golang_restapi.Auth.Service.Register.{finish_registration}
use golang_restapi.Auth.Service.Login.{login, refresh_access_token}
use golang_restapi.Auth.Service.Sessions.{logout}
use golang_restapi.Auth.Service.Passwords.{reset_password, change_password}

-- An error leaves the tables as they were.
abbrev pub IsAtomic : {S A : Type 0} → Action S A → Type 0
IsAtomic {S} m = (w : World S) (e : Err) (w' : World S) → m w ≡ (err e, w') → w'.db ≡ w.db

-- If the outcome is an error, the tables are those of `w`.
abbrev pub IsUntouched : {S A : Type 0} → World S → Result A × World S → Type 0
IsUntouched w (ok _, _) = Unit
IsUntouched w (err _, w') = w'.db ≡ w.db

untouched : {S A : Type 0} (m : Action S A) → IsAtomic m → (w : World S) → IsUntouched w (m w)
untouched {S} {A} m km w = go (m w) refl
  where
    go : (r : Result A × World S) → m w ≡ r → IsUntouched w r
    go (ok _, w') h = tt
    go (err e, w') h = km w e w' h

module _ {S A B : Type 0} where
  -- A read, and then something atomic.
  after_read :
      {F : Db → A → Type 0} (m : Action S A) (f : A → Action S B)
      → Reads F m
      → ((a : A) → IsAtomic (f a))
      → IsAtomic (m >>= f)
  after_read m f km kf w e w' h =
      >>=-err m f h
        (λ h'. ap (λ (p : Result A × World S). p.1.db) (sym h') ∙ (km w.db).keeps w refl)
        (λ a w1 h' h''. let (same, _) = Reads-ok m w km h' in kf a w1 e w' h'' ∙ same)

  -- Something atomic, and then what cannot fail.
  before_success :
      (m : Action S A) (f : A → Action S B)
      → IsAtomic m
      → ((a : A) (w : World S) (e : Err) (w' : World S) → ¬ (f a w ≡ (err e, w')))
      → IsAtomic (m >>= f)
  before_success m f km kf w e w' h =
      >>=-err m f h (λ h'. km w e w' h') (λ a w1 h' h''. absurd (kf a w1 e w' h''))

module _ {S : Type 0} (s : Service S) (ctx : Ctx) where
  change_password-IsAtomic :
      (user_id : ℕ) (inp : ChangePasswordInput) → IsAtomic (change_password s ctx user_id inp)
  unfolding change_password
  change_password-IsAtomic user_id inp =
      after_read _ _ (λ d. Keeps-check _ _)
        (λ _.
          after_read _ _ (λ d. get_user_by_id-Keeps _ s.env _)
            (λ u.
              after_read _ _ (λ d. Keeps-check _ _)
                (λ _.
                  after_read _ _ (λ d. Keeps.hash_password-Keeps _ s.env _)
                    (λ hash. before_success _ _ (undone s.env _) (λ a w e w' h. absurd (cc))))))

  login-IsAtomic : (inp : LoginInput) → IsAtomic (login s ctx inp)
  unfolding login
  login-IsAtomic inp =
      after_read _ _
        (λ d. Keeps.optional-Keeps _ _ (Keeps-forget _ (get_user_by_email-Keeps _ s.env _)))
        (λ found.
          after_read _ _ (λ d. Keeps-or_throw _ _ _)
            (λ u.
              after_read _ _ (λ d. Keeps-check _ _)
                (λ _.
                  after_read _ _ (λ d. Keeps.new_session-Keeps _ s.env ctx _ _)
                    (λ p.
                      after_read _ _ (λ d. Keeps.generate_access_token-Keeps _ s _ _ _)
                        (λ t. before_success _ _ (undone s.env _) (λ a w e w' h. absurd (cc)))))))

  -- RefreshAccessToken, CompleteRegistration, Logout, ResetPassword, ChangePassword and Login
  -- leave every table as it was when they return an error.
  pub failures-leave_tables :
      (token : String) (invited : CompleteRegistrationInput) (id : ℕ)
      (recovered : ResetPasswordInput) (user_id : ℕ) (changed : ChangePasswordInput)
      (credentials : LoginInput) (w : World S)
      → IsUntouched w (refresh_access_token s ctx token w)
        × IsUntouched w (finish_registration s ctx invited w)
        × IsUntouched w (logout s ctx id w)
        × IsUntouched w (reset_password s ctx recovered w)
        × IsUntouched w (change_password s ctx user_id changed w)
        × IsUntouched w (login s ctx credentials w)
  unfolding refresh_access_token finish_registration logout reset_password
  failures-leave_tables token invited id recovered user_id changed credentials w = (
    untouched _ (undone s.env _) w,
    untouched _ (undone s.env _) w,
    untouched _ (before_success _ _ (undone s.env _) (λ a w e w' h. absurd (cc))) w,
    untouched _ (before_success _ _ (undone s.env _) (λ a w e w' h. absurd (cc))) w,
    untouched _ (change_password-IsAtomic user_id changed) w,
    untouched _ (login-IsAtomic credentials) w,
  )
