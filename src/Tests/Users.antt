-- ===== src/Tests/Users.antt =====
-- Requests to the user service at the concrete state.
use golang_restapi.Base.{none, ◌≡◌, refl, [], ◌∷◌}
use golang_restapi.User.Service.{
  UpdateUserInput, perm_delete, change_user, remove_user, change_profile_picture,
}
use golang_restapi.User.Outcomes.Removal.{IsGone, Removed, remove_user-ok}
use golang_restapi.User.Outcomes.Pictures.{Settled, change_profile_picture-settles}
use golang_restapi.World.State.{World}
use golang_restapi.World.Action.{ok, ◌>>=◌}
use golang_restapi.Rbac.{require}
use golang_restapi.Auth.Service.Deps.{optional}
use golang_restapi.Postgres.Transact.{transact}
use golang_restapi.Postgres.Audit.{record_entry, fill_actor_meta}
use golang_restapi.Postgres.Sessions.{revoke_user_sessions}
use golang_restapi.Postgres.Users.{get_user_by_id, delete_user}
use golang_restapi.Redis.Revocation.{revoke_all_for_user}
use golang_restapi.Tests.Store.{Store}
use golang_restapi.Tests.Fixture.{users, portrait, world, as_ann, as_admin}

abbrev renaming : UpdateUserInput
renaming = record { name = "Anna"; phone = "1"; gender = "F" }

abbrev pub removed : World Store
removed = (remove_user users as_admin 7 world).1

pub removal_runs : remove_user users as_admin 7 world ≡ (ok tt, removed)
unfolding remove_user ◌>>=◌ transact optional require get_user_by_id delete_user
    revoke_user_sessions record_entry fill_actor_meta revoke_all_for_user
removal_runs = refl

remove_user-ok_example :
    (require users.table as_admin.rbac (perm_delete ∷ []) ≡ none)
    × IsGone 7 removed.db
    × Removed as_admin 7 world.db removed.db
    × ((w1 : World Store) × (revoke_all_for_user users.env users.jwt_ttl 7 w1 ≡ (ok tt, removed)))
remove_user-ok_example = remove_user-ok users as_admin 7 world removed removal_runs

abbrev renamed : World Store
renamed = (change_user users as_ann 7 renaming world).1

change_profile_picture-settles_example :
    Settled as_ann 7 world (change_profile_picture users as_ann 7 portrait world)
change_profile_picture-settles_example =
    change_profile_picture-settles users as_ann 7 portrait world
