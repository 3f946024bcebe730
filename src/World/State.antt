-- ===== src/World/State.antt =====
-- The tables of migrations/, a row to a list element, and the state that a request acts on.
use golang_restapi.Base.{ℕ, String, List}
use golang_restapi.Nullable.{Nullable}
use golang_restapi.User.{User}
use golang_restapi.Auth.Session.{Session}
use golang_restapi.Auth.RegistrationToken.{RegistrationToken}
use golang_restapi.Auth.PasswordRecoveryToken.{PasswordRecoveryToken}

-- users: the entity and the column that only statements see
pub record UserRow : Type 0 where
  pub user : User
  pub deleted_at : Nullable ℕ

-- The JSON payloads of an audit entry, and the text of an identifier.
pub data Payload : Type 0 where
  nothing : Payload
  user : User → Payload
  registration_token : RegistrationToken → Payload

pub data EntityId : Type 0 where
  number uuid : ℕ → EntityId

pub data MetaValue : Type 0 where
  text : String → MetaValue
  id : ℕ → MetaValue

-- type Entry of internal/audit/audit.go, as a row of audit_logs
pub record AuditEntry : Type 0 where
  pub actor_id : Nullable ℕ
  pub action : String
  pub entity : String
  pub entity_id : EntityId
  pub prev : Payload
  pub next : Payload
  pub meta : List (String × MetaValue)

pub record Db : Type 0 where
  pub users : List UserRow
  pub sessions : List Session
  pub registration_tokens : List RegistrationToken
  pub recovery_tokens : List PasswordRecoveryToken
  -- the newest first
  pub audit_logs : List AuditEntry

-- The calls of storage.Storage that write, with the path of the object.
pub data StorageCall : Type 0 where
  put delete : String → StorageCall

-- `calls` counts the calls to the outside that were made, `storage` lists those of the object
-- storage, the newest first.
pub record World (S : Type 0) : Type 0 where
  pub db : Db
  pub redis : S
  pub storage : List StorageCall
  pub calls : ℕ
