-- ===== src/Auth/History/Requests.antt =====
-- A history of the auth and user services: requests by any callers in any order, each with any outcome, and
-- anything that happens to Redis and to the clock in between.
use golang_restapi.Base.{ℕ, String, refl, List, []}
use golang_restapi.Auth.Model.{
  RegisterInput, CompleteRegistrationInput, LoginInput, ResetPasswordInput, ChangePasswordInput,
}
use golang_restapi.World.State.{Db, World, StorageCall}
use golang_restapi.Postgres.Audit.{Ctx}
use golang_restapi.Auth.Service.Deps.{Service}
use golang_restapi.Auth.Service.Register.{register, finish_registration}
use golang_restapi.Auth.Service.Login.{login, refresh_access_token}
use golang_restapi.Auth.Service.Sessions.{logout, revoke_all, revoke_session}
use golang_restapi.Auth.Service.Passwords.{recover_password, reset_password, change_password}
use golang_restapi.User.Service.{
  UpdateUserInput, change_user, remove_user, change_profile_picture, delete_profile_picture,
}
use golang_restapi.Http.Upload.{ParsedFile}
use golang_restapi.Auth.History.Later.{Later}
use golang_restapi.Auth.History.Services.Register.{register-Later, finish_registration-Later}
use golang_restapi.Auth.History.Services.Login.{login-Later, refresh-Later}
use golang_restapi.Auth.History.Services.Sessions.{
  logout-Later, revoke_all-Later, revoke_session-Later,
}
use golang_restapi.Auth.History.Services.Passwords.{
  recover_password-Later, reset_password-Later, change_password-Later,
}
use golang_restapi.Auth.History.Services.Users.{
  users_of, change_user-Later, remove_user-Later, change_profile_picture-Later,
  delete_profile_picture-Later,
}

-- The methods of the two services that write.
pub data Request : Type 0 where
  register_user : RegisterInput → Request
  complete : CompleteRegistrationInput → Request
  log_in : LoginInput → Request
  refresh : String → Request
  log_out : ℕ → Request
  revoke_user_sessions : ℕ → Request
  revoke_one_session : ℕ → Request
  recover : String → Request
  reset : ResetPasswordInput → Request
  change : ℕ → ChangePasswordInput → Request
  update_user : ℕ → UpdateUserInput → Request
  delete_user : ℕ → Request
  change_picture : ℕ → ParsedFile → Request
  delete_picture : ℕ → Request

module _ {S : Type 0} (s : Service S) where
  -- the state that a request leaves
  unfoldable pub serve : Ctx → Request → World S → World S
  serve ctx (register_user inp) w = (register s ctx inp w).1
  serve ctx (complete inp) w = (finish_registration s ctx inp w).1
  serve ctx (log_in inp) w = (login s ctx inp w).1
  serve ctx (refresh token) w = (refresh_access_token s ctx token w).1
  serve ctx (log_out id) w = (logout s ctx id w).1
  serve ctx (revoke_user_sessions user_id) w = (revoke_all s ctx user_id w).1
  serve ctx (revoke_one_session id) w = (revoke_session s ctx id w).1
  serve ctx (recover email) w = (recover_password s ctx email w).1
  serve ctx (reset inp) w = (reset_password s ctx inp w).1
  serve ctx (change user_id inp) w = (change_password s ctx user_id inp w).1
  serve ctx (update_user user_id inp) w = (change_user (users_of s) ctx user_id inp w).1
  serve ctx (delete_user user_id) w = (remove_user (users_of s) ctx user_id w).1
  serve ctx (change_picture user_id file) w =
      (change_profile_picture (users_of s) ctx user_id file w).1
  serve ctx (delete_picture user_id) w = (delete_profile_picture (users_of s) ctx user_id w).1

-- The states that the services can reach from `start`.
pub data Reach {S : Type 0} (s : Service S) (start : World S) : World S → Type 0 where
  begin : Reach s start start
  request :
      {w : World S} → Reach s start w → (ctx : Ctx) (r : Request) → Reach s start (serve s ctx r w)
  elapse :
      {w : World S}
      → Reach s start w
      → (redis : S) (storage : List StorageCall) (calls : ℕ)
      → Reach s start (record w { redis = redis; storage = storage; calls = calls })

module _ {S : Type 0} (s : Service S) where
  serve-Later :
      (start : Db) (ctx : Ctx) (r : Request) (w : World S)
      → Later start w.db
      → Later start (serve s ctx r w).db
  unfolding serve
  serve-Later start ctx (register_user inp) w = (register-Later s ctx start inp).keeps w
  serve-Later start ctx (complete inp) w = (finish_registration-Later s ctx start inp).keeps w
  serve-Later start ctx (log_in inp) w = (login-Later s ctx start inp).keeps w
  serve-Later start ctx (refresh token) w = (refresh-Later s ctx start token).keeps w
  serve-Later start ctx (log_out id) w = (logout-Later s ctx start id).keeps w
  serve-Later start ctx (revoke_user_sessions user_id) w =
      (revoke_all-Later s ctx start user_id).keeps w
  serve-Later start ctx (revoke_one_session id) w = (revoke_session-Later s ctx start id).keeps w
  serve-Later start ctx (recover email) w = (recover_password-Later s ctx start email).keeps w
  serve-Later start ctx (reset inp) w = (reset_password-Later s ctx start inp).keeps w
  serve-Later start ctx (change user_id inp) w =
      (change_password-Later s ctx start user_id inp).keeps w
  serve-Later start ctx (update_user user_id inp) w =
      (change_user-Later s ctx start user_id inp).keeps w
  serve-Later start ctx (delete_user user_id) w = (remove_user-Later s ctx start user_id).keeps w
  serve-Later start ctx (change_picture user_id file) w =
      (change_profile_picture-Later s ctx start user_id file).keeps w
  serve-Later start ctx (delete_picture user_id) w =
      (delete_profile_picture-Later s ctx start user_id).keeps w

  Later-refl : (db : Db) → Later db db
  Later-refl db = record {
    sessions = λ id m. m;
    registrations = λ id m. m;
    recoveries = λ id m. m;
    log = ([], refl);
  }

  -- Whatever requests of the auth and user services are served, in any order, by whatever callers and with whatever outcomes: a
  -- session that was revoked stays revoked, an invitation that was consumed or superseded stays
  -- so, a recovery token that was used stays used, and the audit log only grows.
  pub Reach-Later : {start w : World S} → Reach s start w → Later start.db w.db
  Reach-Later {start} begin = Later-refl start.db
  Reach-Later {start} (request h ctx r) = serve-Later start.db ctx r _ (Reach-Later h)
  Reach-Later {start} (elapse h redis storage calls) = Reach-Later h
