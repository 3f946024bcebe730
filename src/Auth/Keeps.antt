-- ===== src/Auth/Keeps.antt =====
-- What does not write to the tables keeps every predicate of them: the random values, hashes and
-- signatures of internal/auth, the calls of Redis, and the handling of errors.
use golang_restapi.Base.{ℕ, String, Option, none, some, ◌≡◌, refl, arith}
use golang_restapi.Base.Int.{ℤ, is_zero}
use golang_restapi.Errors.{Err, AppError}
use golang_restapi.Auth.Model.{Event}
use golang_restapi.Auth.Session.{Session}
use golang_restapi.Auth.Crypto.{
  hash_password, generate_opaque_token, sign_access_token, new_session, rotate,
  new_registration_token, new_password_recovery_token,
}
use golang_restapi.World.Platform.{Env, Key}
use golang_restapi.World.State.{Db}
use golang_restapi.World.Action.{Action}
use golang_restapi.World.Logic.{
  Keeps, Any, Keeps-bind, Keeps-pure, Keeps-wrap_err, Keeps-throw_if, Keeps-time_now, Keeps-outside,
  Keeps-get_redis, Keeps-put_redis, Keeps-or_throw, Keeps-forget, Keeps-if,
}
use golang_restapi.Postgres.Audit.{Ctx}
use golang_restapi.Redis.Revocation.{
  revocation_ttl, set_marker, revoke_all_for_user, revoke_session,
}
use golang_restapi.Redis.Throttler.{acquired, acquire, refuse, try_acquire}
use golang_restapi.Redis.Producer.{produce}
use golang_restapi.Auth.Service.Deps.{optional, or_invalid, Service, generate_access_token}

module _ {S : Type 0} (P : Db → Type 0) where
  module _ (env : Env S) where
    pub hash_password-Keeps : (p : String) → Keeps P Any (hash_password env p)
    unfolding hash_password
    hash_password-Keeps p =
        Keeps-bind P (Keeps-outside P env) λ _ _. Keeps-forget P (Keeps-or_throw P _ _)

    pub generate_opaque_token-Keeps :
        (size : ℕ) (prefix : String) → Keeps P Any (generate_opaque_token env size prefix)
    unfolding generate_opaque_token
    generate_opaque_token-Keeps size prefix =
        Keeps-bind P (Keeps-throw_if P _ _)
          λ _ _. Keeps-bind P (Keeps-wrap_err P _ (Keeps-outside P env)) λ _ _. Keeps-pure P _ tt

    pub sign_access_token-Keeps :
        (secret : String) (ttl : ℤ) (u s : ℕ) (role : String)
        → Keeps P Any (sign_access_token env secret ttl u s role)
    unfolding sign_access_token
    sign_access_token-Keeps secret ttl u s role =
        Keeps-bind P (Keeps-time_now P env)
          λ _ _. Keeps-bind P (Keeps-outside P env) λ _ _. Keeps-forget P (Keeps-or_throw P _ _)

    pub new_session-Keeps : (ctx : Ctx) (u : ℕ) (ttl : ℤ) → Keeps P Any (new_session env ctx u ttl)
    unfolding new_session
    new_session-Keeps ctx u ttl = Keeps-bind P (Keeps-throw_if P _ _) λ _ _.
        Keeps-bind P (Keeps-throw_if P _ _) λ _ _. Keeps-bind P (Keeps-outside P env) λ _ _.
          Keeps-bind P (generate_opaque_token-Keeps 32 "rt") λ _ _.
            Keeps-bind P (Keeps-wrap_err P _ (Keeps-or_throw P _ _))
              λ _ _. Keeps-bind P (Keeps-time_now P env) λ _ _. Keeps-pure P _ tt

    -- A rotated session has the id and the revocation of the one that it replaces.
    pub rotate-Keeps :
        (ctx : Ctx) (s : Session)
        → Keeps P (λ p. (p.0.id ≡ s.id) × (p.0.revoked_at ≡ s.revoked_at)) (rotate env ctx s)
    unfolding rotate
    rotate-Keeps ctx s = Keeps-bind P (generate_opaque_token-Keeps 32 "rt") λ _ _.
        Keeps-bind P (Keeps-wrap_err P _ (Keeps-or_throw P _ _))
          λ _ _. Keeps-bind P (Keeps-time_now P env) λ _ _. Keeps-pure P _ (refl, refl)

    pub new_registration_token-Keeps :
        (name email : String) (ttl : ℤ) → Keeps P Any (new_registration_token env name email ttl)
    unfolding new_registration_token
    new_registration_token-Keeps name email ttl =
        Keeps-bind P (Keeps-wrap_err P _ (generate_opaque_token-Keeps 32 "regt"))
          λ _ _. Keeps-bind P (Keeps-time_now P env) λ _ _. Keeps-pure P _ tt

    pub new_password_recovery_token-Keeps :
        (u : ℕ) (ttl : ℤ) → Keeps P Any (new_password_recovery_token env u ttl)
    unfolding new_password_recovery_token
    new_password_recovery_token-Keeps u ttl =
        Keeps-bind P (generate_opaque_token-Keeps 32 "")
          λ _ _. Keeps-bind P (Keeps-time_now P env) λ _ _. Keeps-pure P _ tt

    pub produce-Keeps : (e : Event) → Keeps P Any (produce env e)
    unfolding produce
    produce-Keeps e =
        Keeps-bind P (Keeps-outside P env)
          λ _ _. Keeps-bind P (Keeps-get_redis P) λ _ _. Keeps-put_redis P _

    set_marker-Keeps :
        (jwt_ttl : ℤ) (msg : String) (k : Key) (v : String)
        → Keeps P Any (set_marker env jwt_ttl msg k v)
    unfolding set_marker
    set_marker-Keeps jwt_ttl msg k v =
        Keeps-bind P (Keeps-wrap_err P _ (Keeps-outside P env))
          λ _ _. Keeps-bind P (Keeps-get_redis P) λ _ _. Keeps-put_redis P _

    pub revoke_all_for_user-Keeps :
        (jwt_ttl : ℤ) (u : ℕ) → Keeps P Any (revoke_all_for_user env jwt_ttl u)
    unfolding revoke_all_for_user
    revoke_all_for_user-Keeps jwt_ttl u =
        Keeps-if P (is_zero (revocation_ttl jwt_ttl)) (λ _. Keeps-pure P _ tt)
          λ _. Keeps-bind P (Keeps-time_now P env) λ _ _. set_marker-Keeps jwt_ttl _ _ _

    pub revoke_session-Keeps : (jwt_ttl : ℤ) (id : ℕ) → Keeps P Any (revoke_session env jwt_ttl id)
    unfolding revoke_session
    revoke_session-Keeps jwt_ttl id =
        Keeps-if P (is_zero (revocation_ttl jwt_ttl)) (λ _. Keeps-pure P _ tt)
          λ _. set_marker-Keeps jwt_ttl _ _ _

    acquired-Keeps : (o : Option S) → Keeps P Any (acquired o)
    unfolding acquired
    acquired-Keeps none = Keeps-pure P _ tt
    acquired-Keeps (some s') = Keeps-bind P (Keeps-put_redis P s') λ _ _. Keeps-pure P _ tt

    acquire-Keeps : (k : Key) (ttl : ℤ) → Keeps P Any (acquire env k ttl)
    unfolding acquire
    acquire-Keeps k ttl =
        Keeps-bind P (Keeps-wrap_err P _ (Keeps-outside P env))
          λ n _. Keeps-bind P (Keeps-get_redis P) λ s _. acquired-Keeps _

    pub try_acquire-Keeps : (k : String) (ttl : ℤ) → Keeps P Any (try_acquire env k ttl)
    unfolding try_acquire refuse
    try_acquire-Keeps k ttl = Keeps-bind P (Keeps-throw_if P _ _) λ _ _.
        Keeps-bind P (Keeps-throw_if P _ _) λ _ _. Keeps-bind P (acquire-Keeps _ _) λ got _.
          Keeps-bind P (Keeps-time_now P env) λ _ _.
            Keeps-if P got (λ _. Keeps-pure P _ tt)
              λ _.
                Keeps-bind P (Keeps-wrap_err P _ (Keeps-outside P env))
                  λ _ _. Keeps-bind P (Keeps-get_redis P) λ _ _. Keeps-pure P _ tt

  pub generate_access_token-Keeps :
      (s : Service S) (u id : ℕ) (role : String) → Keeps P Any (generate_access_token s u id role)
  unfolding generate_access_token
  generate_access_token-Keeps s u id role =
      sign_access_token-Keeps s.env s.cfg.jwt_secret s.cfg.jwt_ttl u id role

  module _ {A : Type 0} where
    pub optional-Keeps :
        (wrapped : Err → Err) {m : Action S A} → Keeps P Any m → Keeps P Any (optional wrapped m)
    unfolding optional
    optional-Keeps wrapped {m} km = record {
      keeps = λ w p. let h = km.keeps w p in ground arith;
      gives = λ w a p e. tt;
    }

    pub or_invalid-Keeps :
        {F : A → Type 0} (e : AppError) {m : Action S A} → Keeps P F m → Keeps P F (or_invalid e m)
    unfolding or_invalid
    or_invalid-Keeps e {m} km = record {
      keeps = λ w p. let h = km.keeps w p in ground arith;
      gives = λ w a p h. km.gives w a p (ground arith);
    }
