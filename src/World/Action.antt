-- ===== src/World/Action.antt =====
-- The shape of the code that handles a request: state, and errors as values. The state comes back
-- with an error too, since what was written stays written unless a transaction takes it back.
use golang_restapi.Base.{ℕ, suc, String, Bool, true, false, Option, none, some, if◌then◌else◌}
use golang_restapi.Errors.{Err, fault, wrap}
use golang_restapi.World.Platform.{Env}
use golang_restapi.World.State.{Db, World}

pub data Result {ℓ} (A : Type ℓ) : Type ℓ where
  ok : A → Result A
  err : Err → Result A

abbrev pub ⊤ : Type 0
⊤ = Unit

abbrev pub Action : Type 0 → Type 0 → Type 0
Action S A = World S → Result A × World S

module _ {S A : Type 0} where
  abbrev pub pure : A → Action S A
  pure a w = (ok a, w)

  abbrev pub throw : Err → Action S A
  throw e w = (err e, w)

infixl 5 ◌>>=◌ ◌>>◌
unfoldable pub ◌>>=◌ : {S A B : Type 0} → Action S A → (A → Action S B) → Action S B
◌>>=◌ m f w = let (r, w') = m w in elim r [ ok a ↦ f a w' | err e ↦ (err e, w') ]

abbrev pub ◌>>◌ : {S A B : Type 0} → Action S A → Action S B → Action S B
m >> k = m >>= λ _. k

module _ {S : Type 0} where
  -- `if err := …; err != nil { return err }`, on a check that changes nothing
  abbrev pub check : Option Err → Action S ⊤
  check none = pure tt
  check (some e) = throw e

  -- `if c { return err }`
  abbrev pub throw_if : Bool → Err → Action S ⊤
  throw_if true e = throw e
  throw_if false e = pure tt

  abbrev pub get_db : Action S Db
  get_db w = (ok w.db, w)

  abbrev pub put_db : Db → Action S ⊤
  put_db db w = (ok tt, record w { db = db })

  abbrev pub get_redis : Action S S
  get_redis w = (ok w.redis, w)

  abbrev pub put_redis : S → Action S ⊤
  put_redis s w = (ok tt, record w { redis = s })

  -- the error of a call is only logged
  abbrev pub ignore_err : Action S ⊤ → Action S ⊤
  ignore_err m w = let (_, w') = m w in (ok tt, w')

module _ {S A : Type 0} where
  abbrev pub or_throw : Option A → Err → Action S A
  or_throw none e = throw e
  or_throw (some a) e = pure a

  -- fmt.Errorf("…: %w", err) on the error of a call
  abbrev pub wrap_err : String → Action S A → Action S A
  wrap_err msg m w =
      let (r, w') = m w in elim r [ ok a ↦ (ok a, w') | err e ↦ (err (wrap msg e), w') ]

module _ {S : Type 0} (env : Env S) where
  -- the number of a call to the outside
  abbrev pub call : Action S ℕ
  call w = (ok w.calls, record w { calls = suc w.calls })

  -- time.Now
  abbrev pub time_now : Action S ℕ
  time_now w = (ok (env.clock w.calls), record w { calls = suc w.calls })

  -- A call of the database driver, of Redis or of a library that can fail: its number.
  abbrev pub outside : Action S ℕ
  outside w = (
    if env.fault w.calls then err (fault w.calls) else ok w.calls,
    record w { calls = suc w.calls },
  )
