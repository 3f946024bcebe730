-- ===== src/Postgres/Keeps.antt =====
-- What the transactor and the repositories keep of the tables: a predicate that holds after a
-- statement's write, if the call gets as far as its write.
pub mod Sessions
pub mod Tokens
pub mod Users
use golang_restapi.Base.{
  ℕ, String, Bool, true, false, Option, none, some, ◌≡◌, refl, List, [], ◌∷◌, arith, ◌==◌, nat_eq,
  string_eq, if◌then◌else◌, not,
}
use golang_restapi.Errors.{Err, wrap, fault, app}
use golang_restapi.World.Platform.{Env}
use golang_restapi.World.State.{Db, World}
use golang_restapi.World.Action.{
  ⊤, Result, ok, err, Action, pure, throw, ◌>>=◌, get_db, put_db, outside, wrap_err, throw_if,
}
use golang_restapi.World.Logic.{
  Keeps, Any, Keeps-bind, Keeps-pure, Keeps-throw_if, Keeps-wrap_err, Keeps-outside, Keeps-throw,
  Keeps-get_db, Keeps-put_db, Keeps-weaken,
}
use golang_restapi.Postgres.Transact.{rollback, commit, run_tx, transact}
use golang_restapi.Base.Lists.{update_where}
use golang_restapi.Nullable.{null, nat_zero}
use golang_restapi.Auth.Session.{Session}
use golang_restapi.Postgres.Rows.{Row, missing, one, several, exec, read_row, get_one}
use golang_restapi.Postgres.Sessions.{
  is_taken, rewrite, is_live_of, revoke_at, store_session, update_session, revoke_user_sessions,
  get_session_by_id, get_session_by_refresh_token_hash, list_sessions,
}

module _ {S : Type 0} (P : Db → Type 0) where
  module _ (env : Env S) {A : Type 0} {F : A → Type 0} where
    run_tx-Keeps : {m : Action S A} → Keeps P F m → Keeps P F (run_tx env m)
    unfolding run_tx rollback commit
    run_tx-Keeps {m} km = record {
      keeps = λ w p. let h = km.keeps w p in ground arith;
      gives = λ w a p e. km.gives w a p (ground arith);
    }

    -- A transaction keeps what its function keeps.
    pub transact-Keeps : {m : Action S A} → Keeps P F m → Keeps P F (transact env m)
    unfolding transact
    transact-Keeps km =
        Keeps-bind P (Keeps-wrap_err P _ (Keeps-outside P env))
          λ _ _. Keeps-bind P (Keeps-wrap_err P _ (Keeps-outside P env)) λ _ _. run_tx-Keeps km

  pub exec-Keeps : (env : Env S) (msg : String) → Keeps P Any (exec env msg)
  exec-Keeps env msg = Keeps-wrap_err P msg (Keeps-outside P env)

  pub read_row-Keeps :
      {A : Type 0} (msg : String) (e : Err) (n : ℕ) (row : Row A)
      → Keeps P (λ a. row ≡ one a) (read_row {S = S} msg e n row)
  read_row-Keeps msg e n missing = Keeps-throw P _ e
  read_row-Keeps msg e n (one r) = Keeps-pure P r refl
  read_row-Keeps msg e n several = Keeps-throw P _ _
