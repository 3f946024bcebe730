-- ===== src/User/Outcomes/Update.antt =====
-- UpdateUser of internal/user/service.go, when it succeeds.
use golang_restapi.Base.{ℕ, String, ◌∷◌, ◌≡◌, ◌==◌, nat_eq}
use golang_restapi.Base.Lists.{update_where}
use golang_restapi.User.{User}
use golang_restapi.User.Service.{update_entry}
use golang_restapi.World.State.{Db, World, UserRow}
use golang_restapi.Postgres.Audit.{Ctx, fill_actor_meta}
use golang_restapi.Postgres.Rows.{one, get_one}
use golang_restapi.Postgres.Users.{is_live_id, write_user}

-- The row of `user_id` holds `next`, except for what the statement leaves alone, and one entry says
-- what it held.
pub record Rewritten (ctx : Ctx) (action : String) (user_id : ℕ) (change : User → User)
    (before after : Db) : Type 0 where
  pub stored : UserRow
  pub found : get_one (is_live_id user_id) before.users ≡ one stored
  pub now : ℕ
  pub users :
      after.users
      ≡ update_where
          (λ r. r.user.id == stored.user.id)
          (write_user now (change stored.user))
          before.users
  pub log :
      after.audit_logs
      ≡ fill_actor_meta ctx (
          update_entry action user_id stored.user
            (record (change stored.user) { updated_at = now }))
        ∷ before.audit_logs
