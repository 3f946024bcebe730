-- ===== src/Auth/Outcomes/Passwords.antt =====
-- ChangePassword of internal/auth/service.go, when it succeeds.
use golang_restapi.Base.{ℕ, String, true, none, some, ◌≡◌, ◌∙◌, arith, ◌==◌, nat_eq, ◌∷◌, List, []}
use golang_restapi.Base.Lists.{All, update_where}
use golang_restapi.Nullable
use golang_restapi.Rbac.{require_self_or}
use golang_restapi.User.{User}
use golang_restapi.Auth.Model.{ChangePasswordInput}
use golang_restapi.Auth.Session.{Session}
use golang_restapi.World.Platform.{Env}
use golang_restapi.World.State.{Db, World, UserRow}
use golang_restapi.World.Action.{ok, ignore_err}
use golang_restapi.World.Logic.{
  Keeps-bind, Keeps-outside, Keeps-or_throw, Keeps-weaken, Keeps-ignore_err, >>=-ok, check-ok,
}
use golang_restapi.World.Runs.{Reads, Reads-ok, >>=-read}
use golang_restapi.Postgres.Audit.{Ctx, fill_actor_meta}
use golang_restapi.Postgres.Rows.{get_one, one}
use golang_restapi.Postgres.Sessions.{is_live_of, revoke_at}
use golang_restapi.Postgres.Users.{is_live_id, write_user}
use golang_restapi.Postgres.Keeps.Users.{get_user_by_id-Keeps}
use golang_restapi.Postgres.Transact.Laws.{transact-ok}
use golang_restapi.Postgres.Writes.{update_user-ok, revoke_user_sessions-ok, record_entry-ok}
use golang_restapi.Redis.Revocation.{revoke_all_for_user}
use golang_restapi.Auth.Crypto.{hash_password, verify_password}
use golang_restapi.Auth.Keeps
use golang_restapi.Auth.Service.Deps.{Service, user_entry, perm_change_password}
use golang_restapi.Auth.Service.Passwords.{with_password, change_password_tx, change_password}

-- Every session of the user is revoked.
abbrev pub IsSignedOut : ℕ → Db → Type 0
IsSignedOut user_id db =
    All (λ r. r.user_id ≡ user_id → Nullable.not_null r.revoked_at ≡ true) db.sessions

pub signed_out :
    (user_id now : ℕ) (rows : List Session)
    → All
        (λ r. r.user_id ≡ user_id → Nullable.not_null r.revoked_at ≡ true)
        (update_where (is_live_of user_id) (revoke_at now) rows)
unfolding update_where
signed_out user_id now [] = tt
signed_out user_id now (r ∷ rows) = (λ e. ground arith, signed_out user_id now rows)

-- `user_id` has the new password, is signed out everywhere, and one entry says so.
pub record PasswordSet {S : Type 0} (env : Env S) (ctx : Ctx) (action : String) (user_id : ℕ)
    (plain_text : String) (before after : Db) : Type 0 where
  pub stored : UserRow
  pub found : get_one (is_live_id user_id) before.users ≡ one stored
  pub hash : String
  pub call : ℕ
  pub hashed : env.bcrypt_generate call plain_text ≡ some hash
  pub now : ℕ
  pub users :
      after.users
      ≡ update_where
          (λ r. r.user.id == stored.user.id)
          (write_user now (with_password hash stored.user))
          before.users
  pub signed_out : IsSignedOut user_id after
  pub log : after.audit_logs ≡ fill_actor_meta ctx (user_entry action user_id) ∷ before.audit_logs

module _ {S : Type 0} (env : Env S) where
  pub hash_password-Reads :
      (plain_text : String)
      → Reads
          (λ _ hash. (n : ℕ) × (env.bcrypt_generate n plain_text ≡ some hash))
          (hash_password env plain_text)
  unfolding hash_password
  hash_password-Reads plain_text d =
      Keeps-bind _ (Keeps-outside _ env)
        λ n _. Keeps-weaken _ (Keeps-or_throw _ _ _) λ hash e. (n, e)

  verified :
      (plain_text hash : String)
      → verify_password env plain_text hash ≡ none
      → env.bcrypt_matches hash plain_text ≡ true
  unfolding verify_password
  verified plain_text hash h = ground arith

module _ {S : Type 0} (s : Service S) (ctx : Ctx) where
  change_password_tx-ok :
      (user_id : ℕ) (u : User) (w : World S) {w' : World S}
      → change_password_tx s ctx user_id u w ≡ (ok tt, w')
      → (now : ℕ) × (w'.db.users
          ≡ update_where (λ r. r.user.id == u.id) (write_user now u) w.db.users)
        × IsSignedOut user_id w'.db
        × (w'.db.audit_logs
            ≡ fill_actor_meta ctx (user_entry "auth.change-password" user_id) ∷ w.db.audit_logs)
  unfolding change_password_tx
  change_password_tx-ok user_id u w {w'} h = >>=-ok _ _ h λ _ w1 e1 h1. >>=-ok _ _ h1 λ _ w2 e2 h2.
      let (now, _, d1) = update_user-ok s.env u w e1 in
      let (at, d2) = revoke_user_sessions-ok s.env user_id w1 e2 in
      let d3 = record_entry-ok s.env ctx _ w2 h2 in
      let sessions : w'.db.sessions
          ≡ update_where (is_live_of user_id) (revoke_at at) w1.db.sessions =
        cc in
      (now, cc, rw sessions (signed_out user_id at w1.db.sessions), cc)

  -- ChangePassword succeeds only for the user itself or a caller with the permission, and only on
  -- the current password. Then the new password's hash is stored, every session of the user is
  -- revoked, and one audit entry is written.
  pub change_password-ok :
      (user_id : ℕ) (inp : ChangePasswordInput) (w : World S) {w' : World S}
      → change_password s ctx user_id inp w ≡ (ok tt, w')
      → (require_self_or s.table ctx.rbac user_id perm_change_password ≡ none)
        × (p : PasswordSet s.env ctx "auth.change-password" user_id inp.new_password w.db w'.db)
        × (s.env.bcrypt_matches p.stored.user.password inp.password ≡ true)
  unfolding change_password
  change_password-ok user_id inp w {w'} h = check-ok _ _ h λ allowed h1.
      >>=-read _ _ _ (λ d. get_user_by_id-Keeps _ s.env _) h1
        λ u w1 s1 (db, row, same, found, is) h2. check-ok _ _ h2 λ matches h3.
          >>=-read _ _ _ (hash_password-Reads s.env _) h3 λ hash w2 s2 (n, hashed) h4.
            >>=-ok _ _ h4 λ _ w3 e3 h5. transact-ok s.env _ w2 e3 λ w4 w5 s4 e5 s5.
              let (s6, _) =
                Reads-ok (ignore_err (revoke_all_for_user s.env s.cfg.jwt_ttl user_id)) w3
                  (λ d. Keeps-ignore_err _ (Keeps.revoke_all_for_user-Keeps _ s.env _ _)) h5 in
              let (now, users, out, log) = change_password_tx-ok user_id _ w4 e5 in
              let matched = verified s.env inp.password u.password matches in
              let end : w'.db ≡ w5.db = s6 ∙ s5 in
              let begin : w4.db ≡ w.db = s4 ∙ s2 ∙ s1 in
              (
                allowed,
                record {
                  stored = row;
                  found = rw same at found;
                  hash = hash;
                  call = n;
                  hashed = hashed;
                  now = now;
                  users = rw is (cc (users, end, begin));
                  signed_out = rw end out;
                  log = cc (log, end, begin);
                },
                rw is matched,
              )
