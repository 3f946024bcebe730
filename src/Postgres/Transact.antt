-- ===== src/Postgres/Transact.antt =====
-- DB.Transact of internal/infrastructure/postgres/postgres.go. A transaction that is rolled back,
-- or whose commit fails, leaves the tables as they were when it began.
pub mod Laws
use golang_restapi.Errors.{Err, wrap, join}
use golang_restapi.World.Platform.{Env}
use golang_restapi.World.State.{Db}
use golang_restapi.World.Action.{ok, err, Action, ◌>>◌, wrap_err, outside}

module _ {S : Type 0} (env : Env S) where
  -- the deferred function when fn returned an error
  unfoldable pub rollback : {A : Type 0} → Db → Err → Action S A
  rollback db e w =
      let (r, w') = outside env w in
      elim r [
        | ok _ ↦ (err e, record w' { db = db })
        | err f ↦ (err (join "tx failed" e f), record w' { db = db })
      ]

  -- the deferred function when fn returned nil
  unfoldable pub commit : {A : Type 0} → Db → A → Action S A
  commit db a w =
      let (r, w') = outside env w in
      elim r [
        | ok _ ↦ (ok a, w')
        | err f ↦ (err (wrap "tx failed to commit" f), record w' { db = db })
      ]

  -- fn and the deferred function; the transaction began with the tables of `w`
  unfoldable pub run_tx : {A : Type 0} → Action S A → Action S A
  unfolding rollback commit
  run_tx fn w =
      let (r, w') = fn w in elim r [ ok a ↦ commit w.db a w' | err e ↦ rollback w.db e w' ]

  unfoldable pub transact : {A : Type 0} → Action S A → Action S A
  unfolding run_tx
  transact fn = do
    wrap_err "tx failed to acquire connection" (outside env)
    wrap_err "tx failed to begin transaction" (outside env)
    run_tx fn
