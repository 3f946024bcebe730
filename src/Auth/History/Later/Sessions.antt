-- ===== src/Auth/History/Later/Sessions.antt =====
-- `Later` through the statements on sessions.
use golang_restapi.Base.{ℕ, Bool, true, false, ◌≡◌, refl, ◌∷◌, ◌==◌, nat_eq, nat_beq_iff, sym, ◌∙◌}
use golang_restapi.Base.Lists.{update_where}
use golang_restapi.Nullable
use golang_restapi.Auth.Session.{Session}
use golang_restapi.World.State.{Db}
use golang_restapi.Postgres.Rows.{get_one, one}
use golang_restapi.Postgres.Sessions.{is_taken, rewrite, is_live_of, revoke_at}
use golang_restapi.Auth.History.Marks.{
  IsMarked-update, IsMarked-cons, IsMarked-get_one, ne_of_free, any-or_left,
}
use golang_restapi.Auth.History.Later.{IsRevoked, Later}

abbrev is_revoked : Session → Bool
is_revoked r = Nullable.not_null r.revoked_at

module _ (start : Db) where
  -- What a session that is read says of the marks of `start`.
  abbrev pub Told : Session → Type 0
  Told s =
      (id : ℕ) → IsRevoked id start.sessions → s.id ≡ id → Nullable.not_null s.revoked_at ≡ true

  pub Told-get_one :
      (query : Session → Bool) (db : Db) (s : Session)
      → Later start db
      → get_one query db.sessions ≡ one s
      → Told s
  Told-get_one query db s l e id m =
      IsMarked-get_one (λ r. r.id) is_revoked query id db.sessions s (l.sessions id m) e

  pub Later-update_session :
      (s : Session)
      → Told s
      → (db : Db) → Later start db
      → Later start
          (record db { sessions = update_where (λ r. r.id == s.id) (rewrite s) db.sessions })
  Later-update_session s told db l = record {
    sessions = λ id m.
        IsMarked-update (λ r. r.id) is_revoked _ _ id db.sessions (λ r. refl)
          (λ r hit e _. told id m (sym ((nat_beq_iff r.id s.id).0 hit) ∙ e)) (l.sessions id m);
    registrations = l.registrations;
    recoveries = l.recoveries;
    log = l.log;
  }

  pub Later-revoke_sessions :
      (user_id now : ℕ) (db : Db)
      → Later start db
      → Later start
          (record db { sessions = update_where (is_live_of user_id) (revoke_at now) db.sessions })
  Later-revoke_sessions user_id now db l = record {
    sessions = λ id m.
        IsMarked-update (λ r. r.id) is_revoked _ _ id db.sessions (λ r. refl) (λ r _ _ _. refl)
          (l.sessions id m);
    registrations = l.registrations;
    recoveries = l.recoveries;
    log = l.log;
  }

  pub Later-store_session :
      (s row : Session) (db : Db)
      → row.id ≡ s.id
      → Later start db
      → is_taken s db.sessions ≡ false
      → Later start (record db { sessions = row ∷ db.sessions })
  unfolding is_taken
  Later-store_session s row db same l free = record {
    sessions = λ id m.
        let kept = l.sessions id m in
        IsMarked-cons (λ r. r.id) is_revoked row id db.sessions
          (λ e.
            ne_of_free (λ r. r.id) s.id id db.sessions (any-or_left _ _ db.sessions free) kept.0
              (sym same ∙ e))
          kept;
    registrations = l.registrations;
    recoveries = l.recoveries;
    log = l.log;
  }
