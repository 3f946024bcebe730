-- ===== src/Auth/History/Later/Tokens.antt =====
-- `Later` through the statements on tokens, users and the audit log.
use golang_restapi.Base.{
  ℕ, String, Bool, true, false, ◌||◌, ◌≡◌, refl, ◌∷◌, ◌==◌, nat_eq, nat_beq_iff, string_eq, sym,
  ◌∙◌, ap, List,
}
use golang_restapi.Base.Lists.{update_where}
use golang_restapi.Nullable
use golang_restapi.Auth.RegistrationToken.{RegistrationToken}
use golang_restapi.Auth.PasswordRecoveryToken.{PasswordRecoveryToken}
use golang_restapi.World.State.{AuditEntry, UserRow, Db}
use golang_restapi.Postgres.Rows.{get_one, one}
use golang_restapi.Postgres.Tokens.{
  is_registration_taken, is_recovery_taken, is_outstanding, revoke_token_at, write_used,
  write_recovery_used,
}
use golang_restapi.Auth.History.Marks.{
  IsMarked-update, IsMarked-cons, IsMarked-get_one, ne_of_free, any-or_left,
}
use golang_restapi.Auth.History.Later.{IsSpent, IsUsed, is_spent, Later}

abbrev is_used : PasswordRecoveryToken → Bool
is_used r = Nullable.not_null r.used_at

spent_of_revoked : (b : Bool) → b || true ≡ true
spent_of_revoked true = refl
spent_of_revoked false = refl

module _ (start : Db) where
  -- What an invitation or a recovery token that is read says of the marks of `start`.
  abbrev pub ToldSpent : RegistrationToken → Type 0
  ToldSpent t = (id : ℕ) → IsSpent id start.registration_tokens → t.id ≡ id → is_spent t ≡ true

  abbrev pub ToldUsed : PasswordRecoveryToken → Type 0
  ToldUsed t = (id : ℕ) → IsUsed id start.recovery_tokens → t.id ≡ id → is_used t ≡ true

  pub ToldSpent-get_one :
      (query : RegistrationToken → Bool) (db : Db) (t : RegistrationToken)
      → Later start db
      → get_one query db.registration_tokens ≡ one t
      → ToldSpent t
  ToldSpent-get_one query db t l e id m =
      IsMarked-get_one (λ r. r.id) is_spent query id db.registration_tokens t (l.registrations id m)
        e

  pub ToldUsed-get_one :
      (query : PasswordRecoveryToken → Bool) (db : Db) (t : PasswordRecoveryToken)
      → Later start db
      → get_one query db.recovery_tokens ≡ one t
      → ToldUsed t
  ToldUsed-get_one query db t l e id m =
      IsMarked-get_one (λ r. r.id) is_used query id db.recovery_tokens t (l.recoveries id m) e

  -- A token that was not spent when it was read may be written back with any mark.
  pub Later-update_registration :
      (t : RegistrationToken)
      → ((id : ℕ) → IsSpent id start.registration_tokens → ¬ (t.id ≡ id))
      → (db : Db) → Later start db
      → Later start (record db {
        registration_tokens =
            update_where (λ r. r.id == t.id) (write_used t) db.registration_tokens;
      })
  Later-update_registration t fresh db l = record {
    sessions = l.sessions;
    registrations = λ id m.
        IsMarked-update (λ r. r.id) is_spent _ _ id db.registration_tokens (λ r. refl)
          (λ r hit e _. absurd (fresh id m (sym ((nat_beq_iff r.id t.id).0 hit) ∙ e)))
          (l.registrations id m);
    recoveries = l.recoveries;
    log = l.log;
  }

  pub Later-revoke_registrations :
      (email : String) (now : ℕ) (db : Db)
      → Later start db
      → Later start (record db {
        registration_tokens =
            update_where (is_outstanding email) (revoke_token_at now) db.registration_tokens;
      })
  Later-revoke_registrations email now db l = record {
    sessions = l.sessions;
    registrations = λ id m.
        IsMarked-update (λ r. r.id) is_spent _ _ id db.registration_tokens (λ r. refl)
          (λ r _ _ _. spent_of_revoked (Nullable.not_null r.used_at)) (l.registrations id m);
    recoveries = l.recoveries;
    log = l.log;
  }

  pub Later-store_registration :
      (hash : ℕ) (row : RegistrationToken) (db : Db)
      → Later start db
      → is_registration_taken row.id hash db.registration_tokens ≡ false
      → Later start (record db { registration_tokens = row ∷ db.registration_tokens })
  unfolding is_registration_taken
  Later-store_registration hash row db l free = record {
    sessions = l.sessions;
    registrations = λ id m.
        let kept = l.registrations id m in
        IsMarked-cons (λ r. r.id) is_spent row id db.registration_tokens
          (ne_of_free (λ r. r.id) row.id id db.registration_tokens
            (any-or_left _ _ db.registration_tokens free) kept.0)
          kept;
    recoveries = l.recoveries;
    log = l.log;
  }

  pub Later-update_recovery :
      (t : PasswordRecoveryToken)
      → ((id : ℕ) → IsUsed id start.recovery_tokens → ¬ (t.id ≡ id))
      → (db : Db) → Later start db
      → Later start (record db {
        recovery_tokens =
            update_where (λ r. r.id == t.id) (write_recovery_used t) db.recovery_tokens;
      })
  Later-update_recovery t fresh db l = record {
    sessions = l.sessions;
    registrations = l.registrations;
    recoveries = λ id m.
        IsMarked-update (λ r. r.id) is_used _ _ id db.recovery_tokens (λ r. refl)
          (λ r hit e _. absurd (fresh id m (sym ((nat_beq_iff r.id t.id).0 hit) ∙ e)))
          (l.recoveries id m);
    log = l.log;
  }

  pub Later-store_recovery :
      (t row : PasswordRecoveryToken) (db : Db)
      → Later start db
      → is_recovery_taken row.id t db.recovery_tokens ≡ false
      → Later start (record db { recovery_tokens = row ∷ db.recovery_tokens })
  unfolding is_recovery_taken
  Later-store_recovery t row db l free = record {
    sessions = l.sessions;
    registrations = l.registrations;
    recoveries = λ id m.
        let kept = l.recoveries id m in
        IsMarked-cons (λ r. r.id) is_used row id db.recovery_tokens
          (ne_of_free (λ r. r.id) row.id id db.recovery_tokens
            (any-or_left _ _ db.recovery_tokens free) kept.0)
          kept;
    log = l.log;
  }

  pub Later-users :
      (db : Db) (rows : List UserRow) → Later start db → Later start (record db { users = rows })
  Later-users db rows l = record {
    sessions = l.sessions;
    registrations = l.registrations;
    recoveries = l.recoveries;
    log = l.log;
  }

  pub Later-log :
      (e : AuditEntry) (db : Db)
      → Later start db
      → Later start (record db { audit_logs = e ∷ db.audit_logs })
  Later-log e db l = record {
    sessions = l.sessions;
    registrations = l.registrations;
    recoveries = l.recoveries;
    log = (e ∷ l.log.0, ap (λ xs. e ∷ xs) l.log.1);
  }
