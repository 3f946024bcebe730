-- ===== src/Auth/Outcomes/Refresh.antt =====
-- RefreshAccessToken of internal/auth/service.go, when it succeeds.
use golang_restapi.Base.{ℕ, String, Bool, false, ◌≡◌, refl, ◌∙◌, ap, arith, ◌==◌, nat_eq}
use golang_restapi.Base.Lists.{update_where}
use golang_restapi.Nullable
use golang_restapi.Auth.Model.{TokenPair}
use golang_restapi.Auth.Session
use golang_restapi.Auth.Session.{Session}
use golang_restapi.World.State.{Db, World}
use golang_restapi.World.Action.{ok}
use golang_restapi.World.Logic.{
  Keeps, Keeps-bind, Keeps-pure, Keeps-time_now, Keeps-or_throw, Keeps-wrap_err, >>=-ok,
  throw_if-ok,
}
use golang_restapi.World.Runs.{>>=-read, time_now-Reads}
use golang_restapi.Postgres.Audit.{Ctx}
use golang_restapi.Postgres.Rows.{get_one, one}
use golang_restapi.Postgres.Sessions.{rewrite}
use golang_restapi.Postgres.Keeps.Sessions.{get_session_by_refresh_token_hash-Keeps}
use golang_restapi.Postgres.Keeps.Users.{get_user_by_id-Keeps}
use golang_restapi.Postgres.Transact.Laws.{transact-ok}
use golang_restapi.Postgres.Writes.{update_session-ok}
use golang_restapi.Auth.Crypto.{rotate}
use golang_restapi.Auth.Keeps
use golang_restapi.Auth.Service.Deps.{Service}
use golang_restapi.Auth.Service.Login.{refresh_tx, refresh_access_token}

-- the row that a refresh token names
abbrev pub session_of : {S : Type 0} → Service S → String → Session → Bool
session_of s token r = r.refresh_token_hash == s.env.sha256 token

-- `refreshed`, from a session that was live, is what is written of it
pub record Refreshed {S : Type 0} (s : Service S) (token : String) (pair : TokenPair)
    (before after : Db) : Type 0 where
  pub sess : Session
  pub at : ℕ
  pub found : get_one (session_of s token) before.sessions ≡ one sess
  pub unexpired : Session.is_expired (s.env.clock at) sess ≡ false
  pub unrevoked : Nullable.not_null sess.revoked_at ≡ false
  pub rotated : Session
  pub same_session : rotated.id ≡ sess.id
  pub new_hash : rotated.refresh_token_hash ≡ s.env.sha256 pair.refresh_token
  pub written : after ≡ record before {
    sessions = update_where (λ r. r.id == rotated.id) (rewrite rotated) before.sessions;
  }

module _ {S : Type 0} (s : Service S) (ctx : Ctx) where
  -- A rotation hands out the token whose hash it stores.
  rotate-ok :
      (sess : Session) (d : Db)
      → Keeps
          (λ db. db ≡ d)
          (λ p. (p.0.id ≡ sess.id) × (p.0.refresh_token_hash ≡ s.env.sha256 p.1))
          (rotate s.env ctx sess)
  unfolding rotate
  rotate-ok sess d = Keeps-bind _ (Keeps.generate_opaque_token-Keeps _ s.env 32 "rt") λ _ _.
      Keeps-bind _ (Keeps-wrap_err _ _ (Keeps-or_throw _ _ _))
        λ _ _. Keeps-bind _ (Keeps-time_now _ s.env) λ _ _. Keeps-pure _ _ (refl, refl)

  refresh_tx-ok :
      (token : String) (w : World S) {pair : TokenPair} {w' : World S}
      → refresh_tx s ctx token w ≡ (ok pair, w')
      → Refreshed s token pair w.db w'.db
  unfolding refresh_tx
  refresh_tx-ok token w {pair} {w'} h =
      >>=-read _ _ _
        (λ d. Keeps.or_invalid-Keeps _ _ (get_session_by_refresh_token_hash-Keeps _ s.env _)) h
        λ sess w1 s1 (db, l, found) h1.
          >>=-read _ _ _ (time_now-Reads s.env) h1 λ now w2 s2 (at, read) h2.
            throw_if-ok _ _ _ h2 λ open' h3. throw_if-ok _ _ _ h3 λ unrevoked h4.
              >>=-read _ _ _ (λ d. get_user_by_id-Keeps _ s.env _) h4
                λ u w3 s3 _ h5.
                  >>=-read _ _ _ (λ d. Keeps.generate_access_token-Keeps _ s _ _ _) h5
                    λ _ w4 s4 _ h6. >>=-read _ _ _ (rotate-ok sess) h6 λ p w5 s5 (same, hash) h7.
                      >>=-ok _ _ h7 λ _ w6 up h8.
                        let same_db : w5.db ≡ w.db = cc in
                        let wrote = update_session-ok s.env p.0 w5 up in
                        let handed : p.1 ≡ pair.refresh_token = ground arith in
                        let ended : w6 ≡ w' = ground arith in
                        record {
                          sess = sess;
                          at = at;
                          found = rw l at found;
                          unexpired = rw read at open';
                          unrevoked = unrevoked;
                          rotated = p.0;
                          same_session = same;
                          new_hash = hash ∙ ap s.env.sha256 handed;
                          written = cc;
                        }

  -- When RefreshAccessToken succeeds, the token's SHA-256 sum named exactly one session, which was
  -- neither revoked nor expired at a reading of the clock; and nothing in the tables changes but
  -- the row of this session, which now carries the hash of the refresh token that was handed out.
  pub refresh-ok :
      (token : String) (w : World S) {pair : TokenPair} {w' : World S}
      → refresh_access_token s ctx token w ≡ (ok pair, w')
      → Refreshed s token pair w.db w'.db
  unfolding refresh_access_token
  refresh-ok token w {pair} {w'} h =
      transact-ok s.env _ w h
        λ w0 w1 start ran done. rw (← start, done) (refresh_tx-ok token w0 ran)
