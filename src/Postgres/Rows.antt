-- ===== src/Postgres/Rows.antt =====
-- How the repositories read rows, and how a statement's failure comes back.
pub mod Laws
use golang_restapi.Base.{ℕ, String, Bool, List, [], ◌∷◌, if◌then◌else◌}
use golang_restapi.Errors.{Err, fault, wrap}
use golang_restapi.World.Platform.{Env}
use golang_restapi.World.Action.{Action, pure, throw, wrap_err, outside}

-- What pgxscan.Get makes of the rows that a query returned.
pub data Row {ℓ} (A : Type ℓ) : Type ℓ where
  missing : Row A
  one : A → Row A
  several : Row A

module _ {ℓ} {A : Type ℓ} where
  abbrev more : A → Row A → Row A
  more r missing = one r
  more r _ = several

  unfoldable pub get_one : (A → Bool) → List A → Row A
  get_one test [] = missing
  get_one test (r ∷ rows) = if test r then more r (get_one test rows) else get_one test rows

module _ {S : Type 0} (env : Env S) where
  -- conn.Exec and conn.Query, with the message of the error; the result is the call's number
  abbrev pub exec : String → Action S ℕ
  exec msg = wrap_err msg (outside env)

module _ {S A : Type 0} where
  -- noRowsErr, and any other error of the n-th call
  abbrev pub read_row : String → Err → ℕ → Row A → Action S A
  read_row msg not_found n missing = throw not_found
  read_row msg not_found n (one r) = pure r
  read_row msg not_found n several = throw (wrap msg (fault n))
