-- ===== src/Auth/History/Later.antt =====
-- `Later start db`: nothing that the tables `start` mark is unmarked in `db`, and the log has only
-- grown; and which statements keep it.
pub mod Sessions
pub mod Tokens
use golang_restapi.Base.{ℕ, Bool, ◌≡◌, ◌||◌, List, ◌++◌}
use golang_restapi.Nullable
use golang_restapi.Auth.Session.{Session}
use golang_restapi.Auth.RegistrationToken.{RegistrationToken}
use golang_restapi.Auth.PasswordRecoveryToken.{PasswordRecoveryToken}
use golang_restapi.World.State.{AuditEntry, Db}
use golang_restapi.Auth.History.Marks.{IsMarked}

-- A session that was revoked.
abbrev pub IsRevoked : ℕ → List Session → Type 0
IsRevoked = IsMarked (λ r. r.id) (λ r. Nullable.not_null r.revoked_at)

-- An invitation that was consumed or superseded.
abbrev pub is_spent : RegistrationToken → Bool
is_spent r = Nullable.not_null r.used_at || Nullable.not_null r.revoked_at

abbrev pub IsSpent : ℕ → List RegistrationToken → Type 0
IsSpent = IsMarked (λ r. r.id) is_spent

-- A recovery token that was used.
abbrev pub IsUsed : ℕ → List PasswordRecoveryToken → Type 0
IsUsed = IsMarked (λ r. r.id) (λ r. Nullable.not_null r.used_at)

pub record Later (start db : Db) : Type 0 where
  pub sessions : (id : ℕ) → IsRevoked id start.sessions → IsRevoked id db.sessions
  pub registrations :
      (id : ℕ) → IsSpent id start.registration_tokens → IsSpent id db.registration_tokens
  pub recoveries : (id : ℕ) → IsUsed id start.recovery_tokens → IsUsed id db.recovery_tokens
  pub log : (new : List AuditEntry) × (db.audit_logs ≡ new ++ start.audit_logs)
