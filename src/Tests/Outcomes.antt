-- ===== src/Tests/Outcomes.antt =====
-- Requests served at the concrete state, and what the theorems on their outcomes say of them.
use golang_restapi.Base.{true, ◌≡◌, refl, none, [], ◌∷◌}
use golang_restapi.Auth.Model.{
  TokenPair, ResetPasswordInput, ChangePasswordInput, CompleteRegistrationInput,
}
use golang_restapi.World.State.{World}
use golang_restapi.World.Action.{ok, ◌>>=◌}
use golang_restapi.Auth.Service.Login.{refresh_access_token, login}
use golang_restapi.Auth.Service.Register.{finish_registration}
use golang_restapi.Auth.Service.Passwords.{reset_password, change_password}
use golang_restapi.Auth.Service.Sessions.{revoke_all, logout}
use golang_restapi.Auth.Outcomes.Refresh.{Refreshed, refresh-ok}
use golang_restapi.Auth.Outcomes.Passwords.{change_password-ok, IsSignedOut, PasswordSet}
use golang_restapi.Auth.Outcomes.Reset.{Reset, reset_password-ok}
use golang_restapi.Auth.Outcomes.Register.{Registered, finish_registration-ok}
use golang_restapi.Auth.Outcomes.Sessions.{revoke_all-ok}
use golang_restapi.Auth.Atomic.{IsUntouched, failures-leave_tables}
use golang_restapi.Rbac.{require, require_self_or}
use golang_restapi.Postgres.Transact.{transact}
use golang_restapi.Postgres.Audit.{record_entry, fill_actor_meta}
use golang_restapi.Postgres.Sessions.{
  get_session_by_refresh_token_hash, update_session, revoke_user_sessions,
}
use golang_restapi.Postgres.Tokens.{
  get_password_recovery_token, update_password_recovery_token, get_registration_token,
  update_registration_token,
}
use golang_restapi.Postgres.Users.{get_user_by_id, update_user, store_user}
use golang_restapi.Redis.Revocation.{revoke_all_for_user}
use golang_restapi.Auth.Crypto.{verify_password, hash_password, rotate}
use golang_restapi.Auth.Service.Deps.{
  generate_access_token, user_entry, perm_change_password, perm_revoke_user_sessions,
}
use golang_restapi.Auth.Service.Register.{new_user}
use golang_restapi.Tests.Store.{Store}
use golang_restapi.Tests.Fixture.{service, world, as_ann, as_admin}

abbrev pub refreshed : World Store
refreshed = (refresh_access_token service as_ann "rt_1" world).1

abbrev pub pair : TokenPair
pair = record { access_token = "jwt"; refresh_token = "rt_11111111111111111111111111111111111111" }

pub refresh_runs : refresh_access_token service as_ann "rt_1" world ≡ (ok pair, refreshed)
unfolding refresh_access_token ◌>>=◌ transact get_session_by_refresh_token_hash get_user_by_id
    generate_access_token rotate update_session
refresh_runs = refl

refresh-ok_example : Refreshed service "rt_1" pair world.db refreshed.db
refresh-ok_example = refresh-ok service as_ann "rt_1" world refresh_runs

abbrev pub changing : ChangePasswordInput
changing = record { password = "old"; new_password = "new" }

abbrev pub changed : World Store
changed = (change_password service as_ann 7 changing world).1

change_runs : change_password service as_ann 7 changing world ≡ (ok tt, changed)
unfolding change_password ◌>>=◌ transact get_user_by_id verify_password hash_password
    require_self_or update_user revoke_user_sessions record_entry fill_actor_meta
    revoke_all_for_user
change_runs = refl

change_password-ok_example :
    (require_self_or service.table as_ann.rbac 7 perm_change_password ≡ none)
    × (p : PasswordSet service.env as_ann "auth.change-password" 7 "new" world.db changed.db)
    × (service.env.bcrypt_matches p.stored.user.password "old" ≡ true)
change_password-ok_example = change_password-ok service as_ann 7 changing world change_runs

abbrev pub resetting : ResetPasswordInput
resetting = record { token = "token6"; new_password = "new" }

abbrev pub reset : World Store
reset = (reset_password service as_ann resetting world).1

pub reset_runs : reset_password service as_ann resetting world ≡ (ok tt, reset)
unfolding reset_password ◌>>=◌ transact get_password_recovery_token get_user_by_id hash_password
    update_user update_password_recovery_token revoke_user_sessions record_entry fill_actor_meta
    revoke_all_for_user
reset_runs = refl

reset_password-ok_example : Reset service as_ann resetting world.db reset.db
reset_password-ok_example = reset_password-ok service as_ann resetting world reset reset_runs

abbrev pub completing : CompleteRegistrationInput
completing = record { token = "tok_5"; password = "new" }

abbrev pub completed : World Store
completed = (finish_registration service as_ann completing world).1

pub complete_runs : finish_registration service as_ann completing world ≡ (ok tt, completed)
unfolding finish_registration ◌>>=◌ transact get_registration_token hash_password new_user
    update_registration_token store_user record_entry fill_actor_meta
complete_runs = refl

finish_registration-ok_example : Registered service as_ann completing world.db completed.db
finish_registration-ok_example =
    finish_registration-ok service as_ann completing world completed complete_runs

abbrev pub revoked : World Store
revoked = (revoke_all service as_admin 7 world).1

pub revoke_runs : revoke_all service as_admin 7 world ≡ (ok tt, revoked)
unfolding revoke_all ◌>>=◌ transact require revoke_user_sessions record_entry fill_actor_meta
    revoke_all_for_user
revoke_runs = refl

revoke_all-ok_example :
    (require service.table as_admin.rbac (perm_revoke_user_sessions ∷ []) ≡ none)
    × IsSignedOut 7 revoked.db
    × (revoked.db.audit_logs
        ≡ fill_actor_meta as_admin (user_entry "auth.revoke-user-sessions" 7) ∷ [])
revoke_all-ok_example = revoke_all-ok service as_admin 7 world revoked revoke_runs

failures-leave_tables_example :
    IsUntouched world (refresh_access_token service as_ann "stolen" world)
    × IsUntouched world (finish_registration service as_ann completing world)
    × IsUntouched world (logout service as_ann 99 world)
    × IsUntouched world (reset_password service as_ann resetting world)
    × IsUntouched world (change_password service as_ann 9 changing world)
    × IsUntouched world
        (login service as_ann (record { email = "ann@example.com"; password = "wrong" }) world)
failures-leave_tables_example =
    failures-leave_tables service as_ann "stolen" completing 99 resetting 9 changing
      (record { email = "ann@example.com"; password = "wrong" }) world
