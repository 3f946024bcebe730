-- ===== src/User/Outcomes/Removal.antt =====
-- DeleteUser of internal/user/service.go, when it succeeds.
use golang_restapi.Base.{
  ℕ, Bool, true, false, ap, sym, if◌then◌else◌, Option, none, some, List, [], ◌∷◌, ◌≡◌, refl, ◌∙◌,
  arith, ◌⊎◌, inl, inr, ◌==◌, nat_eq,
}
use golang_restapi.Base.Lists.{All, update_where}
use golang_restapi.Errors.{Err, is, err_not_found}
use golang_restapi.Rbac.{require}
use golang_restapi.User.{User}
use golang_restapi.User.Service.{
  UserService, entry_of, perm_delete, remove_found, remove_user_tx, remove_user,
}
use golang_restapi.World.Platform.{Env}
use golang_restapi.World.State.{Db, World, UserRow, Payload}
use golang_restapi.World.Action.{Result, ok, err, Action, ◌>>=◌}
use golang_restapi.World.Logic.{>>=-ok, check-ok}
use golang_restapi.World.Runs.{Reads-ok}
use golang_restapi.Auth.Keeps
use golang_restapi.Auth.Outcomes.Passwords.{IsSignedOut, signed_out}
use golang_restapi.Auth.Service.Deps.{optional}
use golang_restapi.Postgres.Audit.{Ctx, fill_actor_meta}
use golang_restapi.Postgres.Rows.{missing, one, get_one}
use golang_restapi.Postgres.Rows.Laws.{get_one-test}
use golang_restapi.Postgres.Keeps.Users.{get_user_by_id-Keeps}
use golang_restapi.Postgres.Transact.Laws.{transact-ok}
use golang_restapi.Postgres.Sessions.{is_live_of, revoke_at}
use golang_restapi.Postgres.Users.{is_live_id, get_user_by_id, delete_user}
use golang_restapi.Postgres.Writes.{revoke_user_sessions-ok, record_entry-ok}
use golang_restapi.Redis.Revocation.{revoke_all_for_user}

-- No row of the user is live.
abbrev pub IsGone : ℕ → Db → Type 0
IsGone user_id db = All (λ r. is_live_id user_id r ≡ false) db.users

-- the rows of the users once those of one user are marked deleted
abbrev pub mark_deleted : ℕ → ℕ → Db → List UserRow
mark_deleted user_id now db =
    update_where (λ r. r.user.id == user_id)
      (λ r. record r { deleted_at = record { val = now; valid = true } }) db.users

-- What is written for a user that was found: only its rows are marked deleted, its sessions are
-- revoked, and one entry is added. Nothing is written for a user that was not found.
abbrev pub Removed : Ctx → ℕ → Db → Db → Type 0
Removed ctx user_id before after =
    ((get_one (is_live_id user_id) before.users ≡ missing) × (after ≡ before))
    ⊎ ((stored : UserRow) × (get_one (is_live_id user_id) before.users ≡ one stored)
        × (now : ℕ) × (after.users ≡ mark_deleted user_id now before)
        × IsSignedOut user_id after
        × (after.audit_logs
            ≡ fill_actor_meta ctx (entry_of "user.delete" user_id Payload.nothing Payload.nothing)
              ∷ before.audit_logs))

missing_gone :
    (test : UserRow → Bool) (rows : List UserRow)
    → get_one test rows ≡ missing
    → All (λ r. test r ≡ false) rows
unfolding get_one
missing_gone test [] h = tt
missing_gone test (r ∷ rows) h = (ground arith, missing_gone test rows (ground arith))

deleted_gone :
    (user_id now : ℕ) (rows : List UserRow)
    → All
        (λ r. is_live_id user_id r ≡ false)
        (update_where
          (λ r. r.user.id == user_id)
          (λ r. record r { deleted_at = record { val = now; valid = true } })
          rows)
unfolding update_where
deleted_gone user_id now [] = tt
deleted_gone user_id now (r ∷ rows) = (ground arith, deleted_gone user_id now rows)

module _ {S : Type 0} (env : Env S) where
  delete_user-ok :
      (u : User) (w : World S) {w' : World S}
      → delete_user env u w ≡ (ok tt, w')
      → (now : ℕ) × (w'.db ≡ record w.db {
        users =
            update_where
              (λ r. r.user.id == u.id)
              (λ r. record r { deleted_at = record { val = now; valid = true } })
              w.db.users;
      })
  unfolding delete_user ◌>>=◌
  delete_user-ok u w h = (env.clock w.calls, ground arith)

  -- The lookup's only error that is a missing row.
  not_found-missing :
      (user_id : ℕ) (w : World S) {e : Err} {w' : World S}
      → get_user_by_id env user_id w ≡ (err e, w')
      → is e err_not_found ≡ true
      → get_one (is_live_id user_id) w.db.users ≡ missing
  unfolding get_user_by_id ◌>>=◌ is
  not_found-missing user_id w h n = ground arith

module _ {S : Type 0} (s : UserService S) (ctx : Ctx) where
  remove_found-ok :
      (user_id : ℕ) (u : User) (w : World S) {w' : World S}
      → u.id ≡ user_id
      → remove_found s ctx user_id (some u) w ≡ (ok tt, w')
      → IsGone user_id w'.db
        × (now : ℕ) × (w'.db.users ≡ mark_deleted user_id now w.db)
        × IsSignedOut user_id w'.db
        × (w'.db.audit_logs
            ≡ fill_actor_meta ctx (entry_of "user.delete" user_id Payload.nothing Payload.nothing)
              ∷ w.db.audit_logs)
  remove_found-ok user_id u w {w'} same h = >>=-ok _ _ h λ _ w1 e1 h1. >>=-ok _ _ h1 λ _ w2 e2 h2.
      let (now, d1) = delete_user-ok s.env u w e1 in
      let (at, d2) = revoke_user_sessions-ok s.env user_id w1 e2 in
      let d3 = record_entry-ok s.env ctx _ w2 h2 in
      let users : w'.db.users
          ≡ update_where (λ r. r.user.id == u.id)
              (λ r. record r { deleted_at = record { val = now; valid = true } }) w.db.users =
        cc in
      let sessions : w'.db.sessions
          ≡ update_where (is_live_of user_id) (revoke_at at) w1.db.sessions =
        cc in
      (
        rw (users, same) (deleted_gone user_id now w.db.users),
        now,
        rw same at users,
        rw sessions (signed_out user_id at w1.db.sessions),
        cc,
      )

module _ {S A : Type 0} where
  -- A lookup that may miss, and that went on: with what was found, or with nothing.
  optional-ok :
      (m : Action S A) (w : World S) {o : Option A} {w' : World S}
      → optional (λ e. e) m w ≡ (ok o, w')
      → ((a : A) × (o ≡ some a) × (m w ≡ (ok a, w')))
        ⊎ ((e : Err) × (o ≡ none) × (is e err_not_found ≡ true) × (m w ≡ (err e, w')))
  unfolding optional
  optional-ok m w {o} {w'} h = go (m w) refl h
    where
      go :
          (r : Result A × World S)
          → m w ≡ r
          → ◌≡◌ {A = Result (Option A) × World S}
              (elim r.0 [
                | ok a ↦ (ok (some a), r.1)
                | err e ↦ (if is e err_not_found then ok none else err e, r.1)
              ])
              (ok o, w')
          → ((a : A) × (o ≡ some a) × (m w ≡ (ok a, w')))
            ⊎ ((e : Err) × (o ≡ none) × (is e err_not_found ≡ true) × (m w ≡ (err e, w')))
      go (ok a, w1) e h' = inl (a, ground arith, ground arith)
      go (err x, w1) e h' = inr (x, ground arith, ground arith, ground arith)

module _ {S : Type 0} (s : UserService S) (ctx : Ctx) where
  remove_user_tx-ok :
      (user_id : ℕ) (w : World S) {w' : World S}
      → remove_user_tx s ctx user_id w ≡ (ok tt, w')
      → IsGone user_id w'.db × Removed ctx user_id w.db w'.db
  unfolding remove_user_tx
  remove_user_tx-ok user_id w {w'} h = >>=-ok _ _ h λ o w1 e1 h1.
      elim (optional-ok (get_user_by_id s.env user_id) w e1) [
        | inl (u, is_some, e) ↦
            let (s1, (db, row, same, found, is)) =
              Reads-ok (get_user_by_id s.env user_id) w (λ d. get_user_by_id-Keeps _ s.env _) e in
            let live = get_one-test (is_live_id user_id) db.users row found in
            let owned : u.id ≡ user_id = ground (arith, is) in
            let (gone, now, users, out, log) =
              remove_found-ok s ctx user_id u w1 owned (rw is_some at h1) in
            (
              gone,
              inr (
                row,
                ground (arith, found, same),
                now,
                users ∙ ap (mark_deleted user_id now) s1,
                out,
                rw s1 at log,
              ),
            )
        | inr (e, is_none, missed, h2) ↦
            let none_found = not_found-missing s.env user_id w h2 missed in
            let end : w' ≡ w1 = ground (arith, h1, is_none) in
            let same : w1.db ≡ w.db = lookup_same user_id w h2 in
            (
              rw (end, same) (missing_gone (is_live_id user_id) w.db.users none_found),
              inl (none_found, ground (arith, end, same)),
            )
      ]
    where
      lookup_same :
          (user_id : ℕ) (w : World S) {e : Err} {w' : World S}
          → get_user_by_id s.env user_id w ≡ (err e, w')
          → w'.db ≡ w.db
      lookup_same user_id w h =
          ap (λ (p : Result User × World S). p.1.db) (sym h)
          ∙ (get_user_by_id-Keeps (λ db. db ≡ w.db) s.env user_id).keeps w refl

  -- DeleteUser succeeds only for a caller whose role holds its permission. Then no row of the user
  -- is live; if a live user was found, its rows and no others are marked deleted, every session of
  -- the user is revoked and one audit entry was added, and if none was found the tables are as they
  -- were. RevokeAllForUser has succeeded last of all,
  -- for a user that was not found too.
  pub remove_user-ok :
      (user_id : ℕ) (w w' : World S)
      → remove_user s ctx user_id w ≡ (ok tt, w')
      → (require s.table ctx.rbac (perm_delete ∷ []) ≡ none)
        × IsGone user_id w'.db
        × Removed ctx user_id w.db w'.db
        × ((w1 : World S) × (revoke_all_for_user s.env s.jwt_ttl user_id w1 ≡ (ok tt, w')))
  unfolding remove_user
  remove_user-ok user_id w w' h = check-ok _ _ h λ allowed h1. >>=-ok _ _ h1 λ _ w1 e1 h2.
      transact-ok s.env _ w e1 λ w2 w3 s2 ran s3.
        let (s4, _) =
          Reads-ok (revoke_all_for_user s.env s.jwt_ttl user_id) w1
            (λ d. Keeps.revoke_all_for_user-Keeps _ s.env _ _) h2 in
        let (gone, done) = remove_user_tx-ok user_id w2 ran in
        (allowed, rw (s4, s3) gone, rw (s4, s3, ← s2) done, (w1, h2))
