-- ===== src/Auth/History/Services/Users.antt =====
-- `Later` through the methods that write of internal/user/service.go.
use golang_restapi.Base.{ℕ, String, Option, none, some, not, arith, ◌==◌, string_eq}
use golang_restapi.Nullable
use golang_restapi.User.{User}
use golang_restapi.User.Service.{
  UserService, UpdateUserInput, build_image_path, change_user_tx, change_user, remove_found,
  remove_user_tx, remove_user, put_image, delete_image, change_picture_tx, delete_previous,
  clean_up, store_picture, change_profile_picture, clear_picture, clear_picture_tx,
  delete_profile_picture,
}
use golang_restapi.Http.Upload.{ParsedFile}
use golang_restapi.World.State.{Db, World}
use golang_restapi.World.Action.{⊤, Result, ok, err, Action, ◌>>=◌}
use golang_restapi.World.Logic.{
  Keeps, Any, Keeps-bind, Keeps-pure, Keeps-check, Keeps-if, Keeps-forget,
}
use golang_restapi.Postgres.Audit.{Ctx}
use golang_restapi.Postgres.Keeps.{transact-Keeps}
use golang_restapi.Postgres.Keeps.Sessions.{revoke_user_sessions-Keeps}
use golang_restapi.Postgres.Keeps.Users.{get_user_by_id-Keeps, update_user-Keeps, delete_user-Keeps}
use golang_restapi.Auth.Keeps
use golang_restapi.Auth.Service.Deps.{Service}
use golang_restapi.Auth.History.Later.{Later}
use golang_restapi.Auth.History.Later.Sessions.{Later-revoke_sessions}
use golang_restapi.Auth.History.Later.Tokens.{Later-users}
use golang_restapi.Auth.History.Services.{logged}

-- The user service over the same infrastructure and permission table.
abbrev pub users_of : {S : Type 0} → Service S → UserService S
users_of s = record { env = s.env; jwt_ttl = s.cfg.jwt_ttl; table = s.table }

module _ {S : Type 0} (s : Service S) (ctx : Ctx) (start : Db) where
  pub change_user-Later :
      (user_id : ℕ) (inp : UpdateUserInput)
      → Keeps (Later start) Any (change_user (users_of s) ctx user_id inp)
  unfolding change_user change_user_tx
  change_user-Later user_id inp = Keeps-bind (Later start) (Keeps-check (Later start) _) λ _ _.
      transact-Keeps (Later start) s.env (
        Keeps-bind (Later start) (get_user_by_id-Keeps (Later start) s.env _) λ u _.
          Keeps-bind (Later start) (Keeps-check (Later start) _) λ _ _.
            Keeps-bind (Later start) (update_user-Keeps (Later start) s.env _ (Later-users start))
              λ _ _. logged s ctx start _)

  remove_found-Later :
      (user_id : ℕ) (o : Option User)
      → Keeps (Later start) Any (remove_found (users_of s) ctx user_id o)
  remove_found-Later user_id none = Keeps-pure (Later start) _ tt
  remove_found-Later user_id (some u) =
      Keeps-bind (Later start) (delete_user-Keeps (Later start) s.env _ (Later-users start)) λ _ _.
        Keeps-bind (Later start)
          (revoke_user_sessions-Keeps (Later start) s.env _
            (λ db at. Later-revoke_sessions start _ at db))
          λ _ _. logged s ctx start _

  pub remove_user-Later :
      (user_id : ℕ) → Keeps (Later start) Any (remove_user (users_of s) ctx user_id)
  unfolding remove_user remove_user_tx
  remove_user-Later user_id = Keeps-bind (Later start) (Keeps-check (Later start) _) λ _ _.
      Keeps-bind (Later start)
        (transact-Keeps (Later start) s.env (
          Keeps-bind (Later start)
            (Keeps.optional-Keeps (Later start) _
              (Keeps-forget (Later start) (get_user_by_id-Keeps (Later start) s.env _)))
            λ o _. remove_found-Later user_id o))
        λ _ _. Keeps.revoke_all_for_user-Keeps (Later start) s.env _ user_id

  put_image-Later : (path : String) → Keeps (Later start) Any (put_image (users_of s) ctx path)
  unfolding put_image ◌>>=◌
  put_image-Later path = record { keeps = λ w p. ground arith; gives = λ w a p e. tt }

  delete_image-Later :
      (path : String) → Keeps (Later start) Any (delete_image (users_of s) ctx path)
  unfolding delete_image ◌>>=◌
  delete_image-Later path = record { keeps = λ w p. ground arith; gives = λ w a p e. tt }

  delete_previous-Later :
      (path : String) → Keeps (Later start) Any (delete_previous (users_of s) ctx path)
  delete_previous-Later path =
      Keeps-if (Later start) (path == "") (λ _. Keeps-pure (Later start) _ tt)
        (λ _. delete_image-Later path)

  clean_up-Later :
      (path : String) (m : Action S String)
      → Keeps (Later start) Any m
      → Keeps (Later start) Any (clean_up (users_of s) ctx path m)
  unfolding clean_up
  clean_up-Later path m km = record {
    keeps = λ w p. go (m w) (km.keeps w p);
    gives = λ w a p e. tt;
  }
    where
      go :
          (r : Result String × World S)
          → Later start r.1.db
          → Later start
              (elim r.0 as (λ _. Result ⊤ × World S) [
                | ok prev ↦ delete_previous (users_of s) ctx prev r.1
                | err e ↦ (err e, (delete_image (users_of s) ctx path r.1).1)
              ]).1.db
      go (ok prev, w1) l = (delete_previous-Later prev).keeps w1 l
      go (err e, w1) l = (delete_image-Later path).keeps w1 l

  change_picture_tx-Later :
      (user_id : ℕ) (name : String)
      → Keeps (Later start) Any (change_picture_tx (users_of s) ctx user_id name)
  unfolding change_picture_tx
  change_picture_tx-Later user_id name =
      Keeps-bind (Later start) (get_user_by_id-Keeps (Later start) s.env _) λ u _.
        Keeps-bind (Later start) (update_user-Keeps (Later start) s.env _ (Later-users start))
          λ _ _.
            Keeps-bind (Later start) (logged s ctx start _) λ _ _. Keeps-pure (Later start) _ tt

  pub change_profile_picture-Later :
      (user_id : ℕ) (file : ParsedFile)
      → Keeps (Later start) Any (change_profile_picture (users_of s) ctx user_id file)
  unfolding change_profile_picture store_picture
  change_profile_picture-Later user_id file =
      Keeps-bind (Later start) (Keeps-check (Later start) _) λ _ _.
        Keeps-bind (Later start) {F = Any} (record { keeps = λ w p. p; gives = λ w a p e. tt })
          λ n _.
            Keeps-bind (Later start) {F = Any} (record { keeps = λ w p. p; gives = λ w a p e. tt })
              λ named _. Keeps-bind (Later start) (put_image-Later _) λ _ _.
                clean_up-Later (build_image_path named.filename) _ (
                  transact-Keeps (Later start) s.env
                    (change_picture_tx-Later user_id named.filename))

  clear_picture-Later :
      (user_id : ℕ) (u : User) → Keeps (Later start) Any (clear_picture (users_of s) ctx user_id u)
  clear_picture-Later user_id u =
      Keeps-if (Later start) (not (Nullable.not_null u.profile_picture))
        (λ _. Keeps-pure (Later start) _ tt)
        λ _.
          Keeps-bind (Later start) (update_user-Keeps (Later start) s.env _ (Later-users start))
            λ _ _.
              Keeps-bind (Later start) (logged s ctx start _) λ _ _. Keeps-pure (Later start) _ tt

  pub delete_profile_picture-Later :
      (user_id : ℕ) → Keeps (Later start) Any (delete_profile_picture (users_of s) ctx user_id)
  unfolding delete_profile_picture clear_picture_tx
  delete_profile_picture-Later user_id =
      Keeps-bind (Later start) (Keeps-check (Later start) _) λ _ _.
        Keeps-bind (Later start)
          (transact-Keeps (Later start) s.env (
            Keeps-bind (Later start) (get_user_by_id-Keeps (Later start) s.env _)
              λ u _. clear_picture-Later user_id u))
          λ prev _. delete_previous-Later prev
