-- ===== src/User/Outcomes/Silence.antt =====
-- Which actions of internal/user/service.go make no call of the object storage.
use golang_restapi.Base.{ℕ, ◌≡◌, ◌∙◌, arith, string_eq}
use golang_restapi.User.{User}
use golang_restapi.World.Platform.{Env}
use golang_restapi.World.State.{World, AuditEntry}
use golang_restapi.World.Action.{Result, ok, err, Action, ◌>>=◌}
use golang_restapi.Postgres.Audit.{Ctx, record_entry}
use golang_restapi.Postgres.Transact.{transact, run_tx, commit, rollback}
use golang_restapi.Postgres.Users.{get_user_by_id, update_user}

-- The action makes no call of the object storage.
abbrev pub IsSilent : {S A : Type 0} → Action S A → Type 0
IsSilent {S} m = (w : World S) → (m w).1.storage ≡ w.storage

module _ {S A B : Type 0} where
  pub bind-IsSilent :
      (m : Action S A) (f : A → Action S B)
      → IsSilent m
      → ((a : A) → IsSilent (f a))
      → IsSilent (m >>= f)
  unfolding ◌>>=◌
  bind-IsSilent m f km kf w = go (m w) (km w)
    where
      go :
          (r : Result A × World S)
          → r.1.storage ≡ w.storage
          → (elim r.0 as (λ _. Result B × World S) [
            | ok a ↦ f a r.1
            | err e ↦ (err e, r.1)
          ]).1.storage
            ≡ w.storage
      go (ok a, w1) e = kf a w1 ∙ e
      go (err x, w1) e = e

module _ {S : Type 0} (env : Env S) where
  run_tx-IsSilent : {A : Type 0} (m : Action S A) → IsSilent m → IsSilent (run_tx env m)
  unfolding run_tx commit rollback
  run_tx-IsSilent {A} m km w = go (m w) (km w)
    where
      go :
          (r : Result A × World S)
          → r.1.storage ≡ w.storage
          → (elim r.0 as (λ _. Result A × World S) [
            | ok a ↦ commit env w.db a r.1
            | err e ↦ rollback env w.db e r.1
          ]).1.storage
            ≡ w.storage
      go (ok a, w1) e = ground (arith, e)
      go (err x, w1) e = ground (arith, e)

  pub transact-IsSilent : {A : Type 0} (m : Action S A) → IsSilent m → IsSilent (transact env m)
  unfolding transact
  transact-IsSilent m km =
      bind-IsSilent _ _ (λ w. ground arith)
        λ _. bind-IsSilent _ _ (λ w. ground arith) λ _. run_tx-IsSilent m km

  pub get_user-IsSilent : (user_id : ℕ) → IsSilent (get_user_by_id env user_id)
  unfolding get_user_by_id ◌>>=◌
  get_user-IsSilent user_id w = ground arith

  pub update_user-IsSilent : (u : User) → IsSilent (update_user env u)
  unfolding update_user ◌>>=◌
  update_user-IsSilent u w = ground arith

  pub record_entry-IsSilent : (ctx : Ctx) (e : AuditEntry) → IsSilent (record_entry env ctx e)
  unfolding record_entry ◌>>=◌
  record_entry-IsSilent ctx e w = ground arith
