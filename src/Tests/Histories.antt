-- ===== src/Tests/Histories.antt =====
-- Histories of concrete requests, and what the theorems on all histories say of them.
use golang_restapi.Base.{ℕ, true, ◌≡◌, ◌≢◌, refl, ◌==◌, nat_eq, arith}
use golang_restapi.Auth.RegistrationToken.{RegistrationToken}
use golang_restapi.Auth.PasswordRecoveryToken.{PasswordRecoveryToken}
use golang_restapi.World.State.{World}
use golang_restapi.World.Action.{ok, ◌>>=◌}
use golang_restapi.Postgres.Rows.{get_one, one}
use golang_restapi.Postgres.Transact.{transact}
use golang_restapi.Postgres.Audit.{record_entry, fill_actor_meta}
use golang_restapi.Rbac.{require}
use golang_restapi.Postgres.Sessions.{
  get_session_by_refresh_token_hash, update_session, revoke_user_sessions,
}
use golang_restapi.Postgres.Tokens.{
  get_password_recovery_token, update_password_recovery_token, get_registration_token,
  update_registration_token,
}
use golang_restapi.Postgres.Users.{get_user_by_id, update_user, store_user}
use golang_restapi.Redis.Revocation.{revoke_all_for_user}
use golang_restapi.Auth.Crypto.{hash_password, rotate}
use golang_restapi.Auth.Service.Deps.{generate_access_token}
use golang_restapi.Auth.Service.Login.{refresh_access_token}
use golang_restapi.Auth.Service.Register.{new_user, finish_registration}
use golang_restapi.Auth.Service.Passwords.{reset_password}
use golang_restapi.Auth.Service.Sessions.{revoke_all}
use golang_restapi.Auth.History.Later.{Later, IsRevoked}
use golang_restapi.Auth.History.Requests.{Request, Reach, begin, request, serve, Reach-Later}
use golang_restapi.Auth.History.Refused.{refresh-refuses_revoked}
use golang_restapi.Auth.History.Redeemed.{registration-redeems_once, recovery-redeems_once}
use golang_restapi.Tests.Store.{Store}
use golang_restapi.Tests.Fixture.{
  service, world, db, as_ann, as_admin, revoked_session_of_ann, invitation, recovery,
}
use golang_restapi.Tests.Outcomes.{
  refreshed, pair, resetting, reset, reset_runs, completing, completed, complete_runs,
}

-- ann refreshes her tokens, and an administrator revokes her sessions.
abbrev two_requests : Reach service world (
    serve service as_admin
      (Request.revoke_user_sessions 7)
      (serve service as_ann (Request.refresh "rt_1") world))
two_requests =
    request (request begin as_ann (Request.refresh "rt_1")) as_admin
      (Request.revoke_user_sessions 7)

Reach-Later_example :
    Later db
      (serve service as_admin
        (Request.revoke_user_sessions 7)
        (serve service as_ann (Request.refresh "rt_1") world)).db
Reach-Later_example = Reach-Later service two_requests

session_40-IsRevoked : IsRevoked 40 db.sessions
session_40-IsRevoked = (refl, ((λ e. ground arith), ((λ e. refl), tt)))

abbrev after_refresh : World Store
after_refresh = serve service as_ann (Request.refresh "rt_1") world

names_40 :
    get_one (λ r. r.refresh_token_hash == 7) after_refresh.db.sessions ≡ one revoked_session_of_ann
unfolding serve refresh_access_token ◌>>=◌ transact get_session_by_refresh_token_hash get_user_by_id
    generate_access_token rotate update_session get_one
names_40 = refl

refresh-refuses_revoked_example :
    ¬ (refresh_access_token service as_ann "rt_4444" after_refresh ≡ (ok pair, refreshed))
refresh-refuses_revoked_example =
    refresh-refuses_revoked service world after_refresh as_ann "rt_4444" 40 revoked_session_of_ann
      session_40-IsRevoked (request begin as_ann (Request.refresh "rt_1")) names_40 refl pair
      refreshed

ticks : (n : ℕ) → service.env.clock n ≢ 0
ticks n e = ground arith

abbrev after_completion : World Store
after_completion = serve service as_admin (Request.revoke_user_sessions 7) completed

abbrev spent_invitation : RegistrationToken
spent_invitation = record invitation {
  used_at = record { val = service.env.clock 8; valid = true };
}

names_invitation : get_one (λ r. r.token_hash == 5) world.db.registration_tokens ≡ one invitation
unfolding get_one
names_invitation = refl

names_it_still :
    get_one (λ r. r.token_hash == 5) after_completion.db.registration_tokens ≡ one spent_invitation
unfolding get_one serve revoke_all require revoke_user_sessions finish_registration ◌>>=◌ transact
    get_registration_token hash_password new_user update_registration_token store_user record_entry
    fill_actor_meta revoke_all_for_user
names_it_still = refl

registration-redeems_once_example :
    ¬ (finish_registration service as_ann completing after_completion ≡ (ok tt, completed))
registration-redeems_once_example =
    registration-redeems_once service as_ann as_ann completing completing world completed
      after_completion invitation spent_invitation ticks names_invitation complete_runs
      (request begin as_admin (Request.revoke_user_sessions 7)) names_it_still refl completed

abbrev after_reset : World Store
after_reset = serve service as_admin (Request.revoke_user_sessions 7) reset

abbrev used_recovery : PasswordRecoveryToken
used_recovery = record recovery { used_at = record { val = service.env.clock 6; valid = true } }

names_recovery : get_one (λ r. r.token_hash == 6) world.db.recovery_tokens ≡ one recovery
unfolding get_one
names_recovery = refl

names_used : get_one (λ r. r.token_hash == 6) after_reset.db.recovery_tokens ≡ one used_recovery
unfolding get_one serve revoke_all require reset_password ◌>>=◌ transact get_password_recovery_token
    get_user_by_id hash_password update_user update_password_recovery_token revoke_user_sessions
    record_entry fill_actor_meta revoke_all_for_user
names_used = refl

recovery-redeems_once_example :
    ¬ (reset_password service as_ann resetting after_reset ≡ (ok tt, reset))
recovery-redeems_once_example =
    recovery-redeems_once service as_ann as_ann resetting resetting world reset after_reset recovery
      used_recovery ticks names_recovery reset_runs
      (request begin as_admin (Request.revoke_user_sessions 7)) names_used refl reset
