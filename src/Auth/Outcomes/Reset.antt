-- ===== src/Auth/Outcomes/Reset.antt =====
-- ResetPassword of internal/auth/service.go, when it succeeds.
use golang_restapi.Base.{ℕ, Bool, false, ◌≡◌, refl, ◌∙◌, arith, ◌==◌, nat_eq, ◌∷◌, ◌||◌}
use golang_restapi.Base.Lists.{update_where}
use golang_restapi.User.{User}
use golang_restapi.Auth.Model.{ResetPasswordInput}
use golang_restapi.Auth.PasswordRecoveryToken
use golang_restapi.Auth.PasswordRecoveryToken.{PasswordRecoveryToken}
use golang_restapi.World.State.{Db, World}
use golang_restapi.World.Action.{ok, Action, ◌>>◌, ignore_err}
use golang_restapi.World.Logic.{Keeps-ignore_err, >>=-ok, throw_if-ok}
use golang_restapi.World.Runs.{Reads-ok, >>=-read, time_now-Reads}
use golang_restapi.Postgres.Audit.{Ctx, fill_actor_meta}
use golang_restapi.Postgres.Rows.{get_one, one}
use golang_restapi.Postgres.Sessions.{is_live_of, revoke_at}
use golang_restapi.Postgres.Users.{is_live_id, write_user}
use golang_restapi.Postgres.Tokens.{write_recovery_used}
use golang_restapi.Postgres.Keeps.Tokens.{get_password_recovery_token-Keeps}
use golang_restapi.Postgres.Keeps.Users.{get_user_by_id-Keeps}
use golang_restapi.Postgres.Transact.Laws.{transact-ok}
use golang_restapi.Postgres.Writes.{
  update_user-ok, revoke_user_sessions-ok, record_entry-ok, update_password_recovery_token-ok,
}
use golang_restapi.Redis.Revocation.{revoke_all_for_user}
use golang_restapi.Auth.Keeps
use golang_restapi.Auth.Service.Deps.{Service, user_entry}
use golang_restapi.Auth.Service.Passwords.{with_password, reset_password_tx, reset_password}
use golang_restapi.Postgres.Rows.Laws.{get_one-test}
use golang_restapi.World.Action.{pure}
use golang_restapi.Postgres.Tokens.{update_password_recovery_token}
use golang_restapi.Postgres.Users.{update_user}
use golang_restapi.Postgres.Sessions.{revoke_user_sessions}
use golang_restapi.Postgres.Audit.{record_entry}
use golang_restapi.Auth.Outcomes.Passwords.{
  IsSignedOut, signed_out, PasswordSet, hash_password-Reads,
}

-- The token that was redeemed, and what else was written.
pub record Reset {S : Type 0} (s : Service S) (ctx : Ctx) (inp : ResetPasswordInput)
    (before after : Db) : Type 0 where
  pub token : PasswordRecoveryToken
  pub at : ℕ
  pub used : ℕ
  pub found :
      get_one (λ r. r.token_hash == s.env.sha256 inp.token) before.recovery_tokens ≡ one token
  pub unexpired : PasswordRecoveryToken.is_expired (s.env.clock at) token ≡ false
  pub unused : PasswordRecoveryToken.is_used token ≡ false
  pub written :
      after.recovery_tokens
      ≡ update_where
          (λ r. r.id == token.id)
          (write_recovery_used (PasswordRecoveryToken.mark_used (s.env.clock used) token))
          before.recovery_tokens
  pub set : PasswordSet s.env ctx "auth.reset-password" token.user_id inp.new_password before after

or_false : (a b : Bool) → a || b ≡ false → (a ≡ false) × (b ≡ false)
or_false a b h = ground arith

id_kept : (t : PasswordRecoveryToken) (now : ℕ) → (PasswordRecoveryToken.mark_used now t).id ≡ t.id
unfolding PasswordRecoveryToken.mark_used
id_kept t now = refl

module _ {S : Type 0} (s : Service S) (ctx : Ctx) where
  -- the writes of the transaction, in order
  unfoldable reset_writes : PasswordRecoveryToken → User → Action S ℕ
  reset_writes t user = do
    update_password_recovery_token s.env t
    update_user s.env user
    revoke_user_sessions s.env user.id
    record_entry s.env ctx (user_entry "auth.reset-password" user.id)
    pure user.id

  reset_writes-ok :
      (t : PasswordRecoveryToken) (user : User) (w : World S) {u : ℕ} {w' : World S}
      → reset_writes t user w ≡ (ok u, w')
      → (now : ℕ) × ((w'.db.recovery_tokens
            ≡ update_where (λ r. r.id == t.id) (write_recovery_used t) w.db.recovery_tokens)
          × (w'.db.users
              ≡ update_where (λ r. r.user.id == user.id) (write_user now user) w.db.users)
          × IsSignedOut user.id w'.db
          × (w'.db.audit_logs
              ≡ fill_actor_meta ctx (user_entry "auth.reset-password" user.id) ∷ w.db.audit_logs))
  unfolding reset_writes
  reset_writes-ok t user w {u} {w'} h = >>=-ok _ _ h λ _ w1 e1 h1. >>=-ok _ _ h1 λ _ w2 e2 h2.
      >>=-ok _ _ h2 λ _ w3 e3 h3. >>=-ok _ _ h3 λ _ w4 e4 h4.
        let d1 = update_password_recovery_token-ok s.env t w e1 in
        let (now, _, d2) = update_user-ok s.env user w1 e2 in
        let (at, d3) = revoke_user_sessions-ok s.env user.id w2 e3 in
        let d4 = record_entry-ok s.env ctx _ w3 e4 in
        let end : w4 ≡ w' = ground arith in
        let sessions : w'.db.sessions
            ≡ update_where (is_live_of user.id) (revoke_at at) w2.db.sessions =
          cc in
        (now, (cc, ground arith, rw sessions (signed_out user.id at w2.db.sessions), cc))

  reset_password_tx-ok :
      (inp : ResetPasswordInput) (w : World S) {u : ℕ} {w' : World S}
      → reset_password_tx s ctx inp w ≡ (ok u, w')
      → Reset s ctx inp w.db w'.db
  unfolding reset_password_tx reset_writes PasswordRecoveryToken.mark_used
  reset_password_tx-ok inp w {u} {w'} h =
      >>=-read _ _ _ (λ d. Keeps.or_invalid-Keeps _ _ (get_password_recovery_token-Keeps _ s.env _))
        h
        λ token w1 s1 (db, same, found) h1.
          >>=-read _ _ _ (time_now-Reads s.env) h1 λ now w2 s2 (at, read) h2.
            throw_if-ok _ _ _ h2 λ open' h3.
              >>=-read _ _ _ (λ d. get_user_by_id-Keeps _ s.env _) h3
                λ owner w3 s3 (db', row, same', found', is) h4.
                  >>=-read _ _ _ (hash_password-Reads s.env _) h4 λ hash w4 s4 (n, hashed) h5.
                    >>=-read _ _ _ (time_now-Reads s.env) h5 λ used w5 s5 (at', read') h6.
                      let (unexpired, unused) =
                        or_false (PasswordRecoveryToken.is_expired now token)
                          (PasswordRecoveryToken.is_used token) open' in
                      let (set, (tokens, users, out, log)) =
                        reset_writes-ok (PasswordRecoveryToken.mark_used used token)
                          (with_password hash owner) w5 h6 in
                      let begin : w5.db ≡ w.db = s5 ∙ s4 ∙ s3 ∙ s2 ∙ s1 in
                      let live = get_one-test (is_live_id token.user_id) db'.users row found' in
                      let owned : owner.id ≡ token.user_id = ground (arith, is) in
                      record {
                        token = token;
                        at = at;
                        used = at';
                        found = rw same at found;
                        unexpired = rw read at unexpired;
                        unused = unused;
                        written = rw (← read') (cc (tokens, begin));
                        set = record {
                          stored = row;
                          found = ground (arith, found', same', s2, s1);
                          hash = hash;
                          call = n;
                          hashed = hashed;
                          now = set;
                          users = rw is (cc (users, begin));
                          signed_out = rw owned at out;
                          log = rw (← owned) (cc (log, begin));
                        };
                      }

  -- When ResetPassword succeeds, the text named exactly one recovery token, unused and not expired
  -- at a reading of the clock. Its row is marked used, its user has a bcrypt hash of the new
  -- password and no session that is not revoked, and one audit entry was added.
  pub reset_password-ok :
      (inp : ResetPasswordInput) (w w' : World S)
      → reset_password s ctx inp w ≡ (ok tt, w')
      → Reset s ctx inp w.db w'.db
  unfolding reset_password
  reset_password-ok inp w w' h = >>=-ok _ _ h λ u w1 e1 h1.
      transact-ok s.env _ w e1 λ w2 w3 s2 ran s3.
        let (s4, _) =
          Reads-ok (ignore_err (revoke_all_for_user s.env s.cfg.jwt_ttl u)) w1
            (λ d. Keeps-ignore_err _ (Keeps.revoke_all_for_user-Keeps _ s.env _ _)) h1 in
        rw (← s2, s4, s3) (reset_password_tx-ok inp w2 ran)
