-- ===== src/Postgres/Audit.antt =====
-- Entry.FillActorMeta of internal/audit/audit.go, and Record of
-- internal/infrastructure/postgres/audit_repository.go.
use golang_restapi.Base.{
  ℕ, String, Option, none, some, List, [], ◌∷◌, ◌==◌, nat_eq, string_eq, false, if◌then◌else◌,
}
use golang_restapi.Nullable
use golang_restapi.Nullable.{null, nat_zero}
use golang_restapi.Rbac
use golang_restapi.World.Platform.{Env}
use golang_restapi.World.State.{AuditEntry, MetaValue}
use golang_restapi.World.Action.{⊤, Action, ◌>>=◌, ◌>>◌, get_db, put_db}
use golang_restapi.Postgres.Rows.{exec}

-- type Context of internal/audit/context.go
pub record AuditContext : Type 0 where
  pub ip : String
  pub request_id : String
  pub user_agent : String

-- The values that a request's context carries.
pub record Ctx : Type 0 where
  pub rbac : Option Rbac.Context
  pub audit : Option AuditContext

abbrev pub Meta : Type 0
Meta = List (String × MetaValue)

-- `e.Meta[key] = value`
unfoldable pub assign : String → MetaValue → Meta → Meta
assign key v [] = (key, v) ∷ []
assign key v ((k, w) ∷ m) = if k == key then (k, v) ∷ m else (k, w) ∷ assign key v m

-- the audit context's part of FillActorMeta
unfoldable pub fill_request : Option AuditContext → Meta → Meta
unfolding assign
fill_request none m = m
fill_request (some c) m =
    assign "user_agent" (MetaValue.text c.user_agent)
      (assign "ip_addr" (MetaValue.text c.ip) (assign "request_id" (MetaValue.text c.request_id) m))

-- the actor's part, for the session that the context names
unfoldable pub fill_user : ℕ → Option ℕ → AuditEntry → AuditEntry
unfolding assign Nullable.set
fill_user session_id none e = e
fill_user session_id (some id) e = record e {
  actor_id = Nullable.set id false e.actor_id;
  meta = assign "session_id" (MetaValue.id session_id) e.meta;
}

unfoldable pub fill_actor : Option Rbac.Context → AuditEntry → AuditEntry
unfolding assign fill_user
fill_actor none e = e
fill_actor (some c) e =
    let filled = fill_user c.session_id c.actor.user_id e in
    record filled { meta = assign "actor_role" (MetaValue.text c.actor.role) filled.meta }

-- FillActorMeta
unfoldable pub fill_actor_meta : Ctx → AuditEntry → AuditEntry
unfolding fill_request fill_actor
fill_actor_meta ctx e = fill_actor ctx.rbac (record e { meta = fill_request ctx.audit e.meta })

module _ {S : Type 0} (env : Env S) where
  -- auditRepository.Record; the payloads can always be marshalled
  unfoldable pub record_entry : Ctx → AuditEntry → Action S ⊤
  unfolding fill_actor_meta
  record_entry ctx e = do
    exec env "insert audit log"
    db ← get_db
    put_db (record db { audit_logs = fill_actor_meta ctx e ∷ db.audit_logs })
