-- ===== src/Auth/Outcomes/Register.antt =====
-- CompleteRegistration of internal/auth/service.go, when it succeeds.
use golang_restapi.Base.{
  ℕ, String, true, false, none, some, ◌≡◌, refl, ◌∙◌, arith, ◌==◌, nat_eq, ◌∷◌,
}
use golang_restapi.Base.Lists.{update_where}
use golang_restapi.Nullable.{null, nat_zero}
use golang_restapi.Rbac.{role_user}
use golang_restapi.User.{User, validate, fresh_user}
use golang_restapi.Auth.Model.{CompleteRegistrationInput}
use golang_restapi.Auth.RegistrationToken
use golang_restapi.Auth.RegistrationToken.{RegistrationToken}
use golang_restapi.World.State.{Db, World}
use golang_restapi.World.Action.{ok}
use golang_restapi.World.Logic.{
  Keeps-bind, Keeps-outside, Keeps-check, Keeps-pure, Keeps-or_throw, >>=-ok, throw_if-ok,
}
use golang_restapi.World.Runs.{Reads, >>=-read, time_now-Reads}
use golang_restapi.Postgres.Audit.{Ctx, fill_actor_meta}
use golang_restapi.Postgres.Rows.{get_one, one}
use golang_restapi.Postgres.Tokens.{write_used}
use golang_restapi.Postgres.Users.{is_email_taken}
use golang_restapi.Postgres.Keeps.Tokens.{get_registration_token-Keeps}
use golang_restapi.Postgres.Transact.Laws.{transact-ok}
use golang_restapi.Postgres.Writes.{store_user-ok, update_registration_token-ok, record_entry-ok}
use golang_restapi.Auth.Keeps
use golang_restapi.Auth.Service.Deps.{Service}
use golang_restapi.Auth.Service.Register.{
  new_user, complete_registration_tx, finish_registration, complete_registration_entry,
}
use golang_restapi.Auth.Outcomes.Passwords.{hash_password-Reads}

-- The invitation that was redeemed, and the user that was stored.
pub record Registered {S : Type 0} (s : Service S) (ctx : Ctx) (inp : CompleteRegistrationInput)
    (before after : Db) : Type 0 where
  pub token : RegistrationToken
  pub at : ℕ
  pub used : ℕ
  pub spent : RegistrationToken
  pub found :
      get_one (λ r. r.token_hash == s.env.sha256 inp.token) before.registration_tokens ≡ one token
  pub valid : RegistrationToken.is_valid (s.env.clock at) token ≡ true
  pub marked : RegistrationToken.mark_used (s.env.clock at) (s.env.clock used) token ≡ some spent
  pub same_token : spent.id ≡ token.id
  pub written :
      after.registration_tokens
      ≡ update_where (λ r. r.id == spent.id) (write_used spent) before.registration_tokens
  pub user : User
  pub hash : String
  pub call : ℕ
  pub hashed : s.env.bcrypt_generate call inp.password ≡ some hash
  pub invited :
      (user.name ≡ token.name)
      × (user.email ≡ token.email)
      × (user.password ≡ hash)
      × (user.role ≡ role_user)
  pub sound : validate s.env.parse_address user ≡ none
  pub free : is_email_taken user.email before.users ≡ false
  pub stored_at : ℕ
  pub users :
      after.users
      ≡ record {
        user = record user { created_at = stored_at; updated_at = stored_at };
        deleted_at = null;
      }
        ∷ before.users
  pub log :
      after.audit_logs
      ≡ fill_actor_meta ctx (
          complete_registration_entry
            (record user { created_at = stored_at; updated_at = stored_at }))
        ∷ before.audit_logs

redeemed :
    (t t' : RegistrationToken) (now used : ℕ)
    → RegistrationToken.mark_used now used t ≡ some t'
    → (RegistrationToken.is_valid now t ≡ true) × (t'.id ≡ t.id)
unfolding RegistrationToken.mark_used
redeemed t t' now used h = ground arith

module _ {S : Type 0} (s : Service S) (ctx : Ctx) where
  new_user-Reads :
      (name email hash : String)
      → Reads
          (λ _ u.
            ((u.name ≡ name) × (u.email ≡ email) × (u.password ≡ hash) × (u.role ≡ role_user))
            × (validate s.env.parse_address u ≡ none))
          (new_user s ctx name email hash)
  unfolding new_user fresh_user
  new_user-Reads name email hash d = Keeps-bind _ (Keeps-outside _ s.env) λ n _.
      Keeps-bind _ (time_now-Reads s.env d) λ now _.
        Keeps-bind _ (Keeps-check _ _) λ _ sound. Keeps-pure _ _ ((refl, refl, refl, refl), sound)

  complete_registration_tx-ok :
      (inp : CompleteRegistrationInput) (w : World S) {w' : World S}
      → complete_registration_tx s ctx inp w ≡ (ok tt, w')
      → Registered s ctx inp w.db w'.db
  unfolding complete_registration_tx
  complete_registration_tx-ok inp w {w'} h =
      >>=-read _ _ _ (λ d. Keeps.or_invalid-Keeps _ _ (get_registration_token-Keeps _ s.env _)) h
        λ token w1 s1 (db, same, found) h1.
          >>=-read _ _ _ (time_now-Reads s.env) h1 λ now w2 s2 _ h2.
            throw_if-ok _ _ _ h2 λ open' h3.
              >>=-read _ _ _ (hash_password-Reads s.env _) h3 λ hash w3 s3 (n, hashed) h4.
                >>=-read _ _ _ (new_user-Reads _ _ hash) h4 λ u w4 s4 (invited, sound) h5.
                  >>=-read _ _ _ (time_now-Reads s.env) h5 λ again w5 s5 (at, read) h6.
                    >>=-read _ _ _ (time_now-Reads s.env) h6 λ used w6 s6 (at', read') h7.
                      >>=-read _ _ _ (λ d. Keeps-or_throw _ _ _) h7
                        λ t w7 s7 marked h8. >>=-ok _ _ h8 λ _ w8 e8 h9.
                          >>=-ok _ _ h9 λ u' w9 e9 h10.
                            let begin : w7.db ≡ w.db = s7 ∙ s6 ∙ s5 ∙ s4 ∙ s3 ∙ s2 ∙ s1 in
                            let (sound_token, same_token) = redeemed token t again used marked in
                            let d1 = update_registration_token-ok s.env t w7 e8 in
                            let (stored_at, refreshed, free, d2) = store_user-ok s.env u w8 e9 in
                            let d3 =
                              record_entry-ok s.env ctx (complete_registration_entry u') w9 h10 in
                            record {
                              token = token;
                              at = at;
                              used = at';
                              spent = t;
                              found = rw same at found;
                              valid = rw read at sound_token;
                              marked = rw (read, read') at marked;
                              same_token = same_token;
                              written = cc (d1, d2, d3, begin);
                              user = u;
                              hash = hash;
                              call = n;
                              hashed = hashed;
                              invited = invited;
                              sound = sound;
                              free = ground (arith, d1, begin);
                              stored_at = stored_at;
                              users = cc (d1, d2, d3, begin);
                              log = cc (d1, d2, d3, begin, refreshed);
                            }

  -- When CompleteRegistration succeeds, the text named exactly one invitation, valid at a reading
  -- of the clock. Its row is marked used, and one audit entry and one user were added: a valid user
  -- with the invitation's name and email, an email that no live user had, a bcrypt hash of the
  -- password and the role `user`.
  pub finish_registration-ok :
      (inp : CompleteRegistrationInput) (w w' : World S)
      → finish_registration s ctx inp w ≡ (ok tt, w')
      → Registered s ctx inp w.db w'.db
  unfolding finish_registration
  finish_registration-ok inp w w' h =
      transact-ok s.env _ w h
        λ w0 w1 start ran done. rw (← start, done) (complete_registration_tx-ok inp w0 ran)
