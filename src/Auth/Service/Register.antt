-- ===== src/Auth/Service/Register.antt =====
-- Register, CompleteRegistration and GetRegistrationToken of internal/auth/service.go.
use golang_restapi.Base.{
  String, Bool, true, false, not, Option, none, some, [], ◌∷◌, concat, if◌then◌else◌,
}
use golang_restapi.Errors.{app, wrap}
use golang_restapi.Nullable.{null, nat_zero}
use golang_restapi.Rbac.{require}
use golang_restapi.User.{User, err_email_conflict, validate, fresh_user}
use golang_restapi.Auth.Model.{RegisterInput, CompleteRegistrationInput, complete_registration}
use golang_restapi.Auth.RegistrationToken
use golang_restapi.Auth.RegistrationToken.{RegistrationToken, err_invalid_registration_token}
use golang_restapi.Auth.Crypto.{hash_password, new_registration_token}
use golang_restapi.World.State.{Payload, number, nothing, AuditEntry}
use golang_restapi.World.Action.{
  ⊤, Action, pure, ◌>>=◌, ◌>>◌, check, throw_if, or_throw, wrap_err, time_now, outside,
}
use golang_restapi.Postgres.Transact.{transact}
use golang_restapi.Postgres.Users.{get_user_by_email, store_user}
use golang_restapi.Postgres.Tokens.{
  revoke_registration_tokens, store_registration_token, get_registration_token,
  update_registration_token,
}
use golang_restapi.Postgres.Audit.{Ctx, record_entry}
use golang_restapi.Redis.Producer.{produce}
use golang_restapi.Auth.Service.Deps.{Service, optional, or_invalid, user_entry, perm_register_user}

abbrev pub is_some {ℓ} : {A : Type ℓ} → Option A → Bool
is_some none = false
is_some (some _) = true

abbrev pub register_entry : RegistrationToken → AuditEntry
register_entry token = record {
  actor_id = null;
  action = "auth.register";
  entity = "registration_token";
  entity_id = number token.id;
  prev = nothing;
  next = Payload.registration_token token;
  meta = [];
}

abbrev pub complete_registration_entry : User → AuditEntry
complete_registration_entry u =
    let e = user_entry "auth.complete-registration" u.id in record e { next = Payload.user u }

-- fmt.Sprintf("%s?token=%s", endpoint, token)
abbrev pub link : String → String → String
link endpoint token = concat endpoint (concat "?token=" token)

module _ {S : Type 0} (s : Service S) (ctx : Ctx) where
  -- the function that Register passes to Transact; its result is the raw token
  unfoldable pub register_tx : RegisterInput → Action S String
  unfolding optional
  register_tx inp = do
    u ← optional (wrap "looking up user by email") (get_user_by_email s.env inp.email)
    throw_if (is_some u) (app err_email_conflict)
    wrap_err "revoking previous registration tokens" (revoke_registration_tokens s.env inp.email)
    (token, raw_token) ←
        wrap_err "creating registration token"
          (new_registration_token s.env inp.name inp.email s.cfg.registration_token_ttl)
    stored ← wrap_err "storing registration token" (store_registration_token s.env token)
    record_entry s.env ctx (register_entry stored)
    pure raw_token

  unfoldable pub register : RegisterInput → Action S ⊤
  unfolding register_tx
  register inp = do
    check (if s.cfg.internal_mode then require s.table ctx.rbac (perm_register_user ∷ []) else none)
    raw_token ← transact s.env (register_tx inp)
    wrap_err "registration succeeded but failed to send completion email" (
        produce s.env (
          complete_registration inp.email inp.name
            (link s.cfg.complete_registration_form_endpoint raw_token)
            s.cfg.registration_token_ttl))

  -- user.New: the new id, the time and the validation
  unfoldable pub new_user : String → String → String → Action S User
  unfolding fresh_user validate
  new_user name email hashed_password = do
    n ← outside s.env
    now ← time_now s.env
    let u = fresh_user (s.env.uuid_v7 n) now name email hashed_password
    check (validate s.env.parse_address u)
    pure u

  unfoldable pub complete_registration_tx : CompleteRegistrationInput → Action S ⊤
  unfolding or_invalid RegistrationToken.is_valid RegistrationToken.mark_used new_user
  complete_registration_tx inp = do
    reg_token ←
        or_invalid err_invalid_registration_token
          (get_registration_token s.env (s.env.sha256 inp.token))
    checked ← time_now s.env
    throw_if (not (RegistrationToken.is_valid checked reg_token))
        (app err_invalid_registration_token)
    password_hash ← hash_password s.env inp.password
    u ← new_user reg_token.name reg_token.email password_hash
    rechecked ← time_now s.env
    used ← time_now s.env
    reg_token' ←
        or_throw (RegistrationToken.mark_used rechecked used reg_token)
          (app err_invalid_registration_token)
    update_registration_token s.env reg_token'
    stored ← store_user s.env u
    record_entry s.env ctx (complete_registration_entry stored)

  unfoldable pub finish_registration : CompleteRegistrationInput → Action S ⊤
  unfolding complete_registration_tx
  finish_registration inp = transact s.env (complete_registration_tx inp)

  unfoldable pub lookup_registration_token : String → Action S RegistrationToken
  lookup_registration_token raw_token = get_registration_token s.env (s.env.sha256 raw_token)
