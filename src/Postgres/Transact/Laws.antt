-- ===== src/Postgres/Transact/Laws.antt =====
-- DB.Transact of internal/infrastructure/postgres/postgres.go, by its outcome.
use golang_restapi.Base.{◌≡◌, refl, ◌∙◌, arith, ◌⊎◌, inl, inr}
use golang_restapi.Errors.{Err}
use golang_restapi.World.Platform.{Env}
use golang_restapi.World.State.{World}
use golang_restapi.World.Action.{Result, ok, err, Action, ◌>>=◌}
use golang_restapi.World.Logic.{Keeps-outside, Keeps-wrap_err}
use golang_restapi.World.Runs.{>>=-read}
use golang_restapi.Postgres.Transact.{rollback, commit, run_tx, transact}

module _ {S A : Type 0} (env : Env S) (m : Action S A) where
  -- A function that succeeds is committed, or the transaction fails.
  commits :
      (w : World S) {a : A} {w' : World S}
      → run_tx env m w ≡ (ok a, w')
      → (w1 : World S) × (m w ≡ (ok a, w1)) × (w'.db ≡ w1.db)
  unfolding run_tx rollback commit
  commits w {a} {w'} h = go (m w) refl h
    where
      go :
          (r : Result A × World S)
          → m w ≡ r
          → (elim r.0 [ ok x ↦ commit env w.db x r.1 | err e ↦ rollback env w.db e r.1 ])
            ≡ (ok a, w')
          → (w1 : World S) × (m w ≡ (ok a, w1)) × (w'.db ≡ w1.db)
      go (ok x, w1) e h' = (w1, ground arith, ground arith)
      go (err x, w1) e h' = absurd (ground arith)

  restores : (w : World S) {e : Err} {w' : World S} → run_tx env m w ≡ (err e, w') → w'.db ≡ w.db
  unfolding run_tx rollback commit
  restores w h = ground arith

  pub transact-ok :
      (w : World S) {a : A} {w' : World S} {C : Type 0}
      → transact env m w ≡ (ok a, w')
      → ((w0 w1 : World S) → w0.db ≡ w.db → m w0 ≡ (ok a, w1) → w'.db ≡ w1.db → C)
      → C
  unfolding transact
  transact-ok w {a} {w'} {C} h k =
      >>=-read _ _ _ (λ d. Keeps-wrap_err (λ db. db ≡ d) _ (Keeps-outside _ env)) h
        λ _ wa sa _ h1.
          >>=-read _ _ _ (λ d. Keeps-wrap_err (λ db. db ≡ d) _ (Keeps-outside _ env)) h1
            λ _ wb sb _ h2. let (w1, ran, same) = commits wb h2 in k wb w1 (sb ∙ sa) ran same

  pub undone :
      (w : World S) (e : Err) (w' : World S) → transact env m w ≡ (err e, w') → w'.db ≡ w.db
  unfolding transact run_tx rollback commit ◌>>=◌
  undone w e w' h = ground arith

  -- A transaction either succeeds, and then its function ran on the tables as they were and the
  -- tables are as it left them; or fails, and then the tables are as they were.
  pub transact-all_or_nothing :
      (w : World S)
      → ((w0 w1 : World S) × (a : A) × (w0.db ≡ w.db)
          × (m w0 ≡ (ok a, w1))
          × ((transact env m w).0 ≡ ok a)
          × ((transact env m w).1.db ≡ w1.db))
        ⊎ ((e : Err) × ((transact env m w).0 ≡ err e) × ((transact env m w).1.db ≡ w.db))
  transact-all_or_nothing w = go (transact env m w) refl
    where
      go :
          (r : Result A × World S)
          → transact env m w ≡ r
          → ((w0 w1 : World S) × (a : A) × (w0.db ≡ w.db)
              × (m w0 ≡ (ok a, w1))
              × (r.0 ≡ ok a)
              × (r.1.db ≡ w1.db))
            ⊎ ((e : Err) × (r.0 ≡ err e) × (r.1.db ≡ w.db))
      go (ok a, w') h =
          transact-ok w h λ w0 w1 start ran done. inl (w0, w1, a, start, ran, refl, done)
      go (err e, w') h = inr (e, refl, undone w e w' h)
