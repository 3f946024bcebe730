-- ===== src/User/Service.antt =====
-- internal/user/service.go: the methods of the user service, but for ListUser. Log lines and the
-- cancellation of a context have no effect on the state.
use golang_restapi.Base.{
  ℕ, String, false, Option, none, some, not, List, [], ◌∷◌, ◌==◌, string_eq, concat, if◌then◌else◌,
}
use golang_restapi.Base.Int.{ℤ}
use golang_restapi.Nullable
use golang_restapi.Nullable.{null, nat_zero, string_zero}
use golang_restapi.Rbac.{
  Permission, PermissionTable, role_system, role_admin, role_user, require, require_self_or,
}
use golang_restapi.User.{User, validate}
use golang_restapi.Http.Upload.{ParsedFile, set_name}
use golang_restapi.World.Platform.{Env}
use golang_restapi.World.State.{AuditEntry, Payload, uuid, StorageCall, put, delete, World}
use golang_restapi.World.Action.{
  ⊤, ok, err, Action, pure, ◌>>=◌, ◌>>◌, check, call, outside, ignore_err,
}
use golang_restapi.Postgres.Transact.{transact}
use golang_restapi.Postgres.Users.{get_user_by_id, get_user_by_email, update_user, delete_user}
use golang_restapi.Postgres.Sessions.{revoke_user_sessions}
use golang_restapi.Postgres.Audit.{Ctx, record_entry}
use golang_restapi.Redis.Revocation.{revoke_all_for_user}
use golang_restapi.Auth.Service.Deps.{optional}

-- type UpdateUserInput of internal/user/model.go
pub record UpdateUserInput : Type 0 where
  pub name : String
  pub phone : String
  pub gender : String

-- The repositories, the transactor, the recorder and the revoker are those of Postgres and Redis
-- over `env`; `jwt_ttl` is the revoker's.
pub record UserService (S : Type 0) : Type 0 where
  pub env : Env S
  pub jwt_ttl : ℤ
  pub table : PermissionTable

abbrev pub perm_read : Permission
perm_read = "user.read"

abbrev pub perm_update : Permission
perm_update = "user.update"

abbrev pub perm_delete : Permission
perm_delete = "user.delete"

abbrev all_user_perms : List Permission
all_user_perms = perm_read ∷ perm_update ∷ perm_delete ∷ []

abbrev pub perm_tables : PermissionTable
perm_tables = (role_system, all_user_perms) ∷ (role_admin, all_user_perms) ∷ (role_user, []) ∷ []

-- an audit.Entry of the user entity
abbrev pub entry_of : String → ℕ → Payload → Payload → AuditEntry
entry_of action user_id prev next = record {
  actor_id = null;
  action = action;
  entity = "user";
  entity_id = uuid user_id;
  prev = prev;
  next = next;
  meta = [];
}

abbrev pub update_entry : String → ℕ → User → User → AuditEntry
update_entry action user_id prev next =
    entry_of action user_id (Payload.user prev) (Payload.user next)

-- buildImagePath
abbrev pub build_image_path : String → String
build_image_path name = concat "profiles/" name

-- the struct that UpdateUser validates and stores
unfoldable pub with_input : (String → String) → UpdateUserInput → User → User
unfolding Nullable.set
with_input to_upper inp u = record u {
  name = inp.name;
  phone = Nullable.set inp.phone false u.phone;
  gender = Nullable.set (to_upper inp.gender) false u.gender;
}

-- the path of the user's picture, "" for none
abbrev pub picture_path : User → String
picture_path u =
    if Nullable.not_null u.profile_picture
    then build_image_path (Nullable.get u.profile_picture)
    else ""

unfoldable pub with_picture : String → User → User
unfolding Nullable.set
with_picture name u = record u { profile_picture = Nullable.set name false u.profile_picture }

-- A call of the object storage.
abbrev pub note : {S : Type 0} → StorageCall → World S → World S
note c w = record w { storage = c ∷ w.storage }

module _ {S : Type 0} (s : UserService S) (ctx : Ctx) where
  unfoldable pub get_user : ℕ → Action S User
  get_user user_id = do
    check (require_self_or s.table ctx.rbac user_id perm_read)
    get_user_by_id s.env user_id

  unfoldable pub get_user_of_email : String → Action S User
  get_user_of_email email = do
    usr ← get_user_by_email s.env email
    check (require_self_or s.table ctx.rbac usr.id perm_read)
    pure usr

  unfoldable pub change_user_tx : ℕ → UpdateUserInput → Action S ⊤
  unfolding with_input
  change_user_tx user_id inp = do
    prev ← get_user_by_id s.env user_id
    let usr = with_input s.env.to_upper inp prev
    check (validate s.env.parse_address usr)
    stored ← update_user s.env usr
    record_entry s.env ctx (update_entry "user.update" user_id prev stored)

  -- UpdateUser
  unfoldable pub change_user : ℕ → UpdateUserInput → Action S ⊤
  unfolding change_user_tx
  change_user user_id inp = do
    check (require_self_or s.table ctx.rbac user_id perm_update)
    transact s.env (change_user_tx user_id inp)

  -- what follows the lookup: a missing user is not an error
  abbrev pub remove_found : ℕ → Option User → Action S ⊤
  remove_found user_id none = pure tt
  remove_found user_id (some usr) = do
    delete_user s.env usr
    revoke_user_sessions s.env user_id
    record_entry s.env ctx (entry_of "user.delete" usr.id Payload.nothing Payload.nothing)

  unfoldable pub remove_user_tx : ℕ → Action S ⊤
  unfolding optional
  remove_user_tx user_id = do
    found ← optional (λ e. e) (get_user_by_id s.env user_id)
    remove_found user_id found

  -- DeleteUser
  unfoldable pub remove_user : ℕ → Action S ⊤
  unfolding remove_user_tx
  remove_user user_id = do
    check (require s.table ctx.rbac (perm_delete ∷ []))
    transact s.env (remove_user_tx user_id)
    revoke_all_for_user s.env s.jwt_ttl user_id

  -- imageStorage.Put
  unfoldable pub put_image : String → Action S ⊤
  put_image path w = (outside s.env >>= λ _. pure tt) (note (put path) w)

  -- asyncDeleteImage: the goroutine's call, whose error is only logged
  unfoldable pub delete_image : String → Action S ⊤
  delete_image path w = ignore_err (outside s.env >>= λ _. pure tt) (note (delete path) w)

  -- the transaction of ChangeProfilePicture; its result is prevImagePath
  unfoldable pub change_picture_tx : ℕ → String → Action S String
  unfolding with_picture
  change_picture_tx user_id name = do
    prev ← get_user_by_id s.env user_id
    let usr = with_picture name prev
    stored ← update_user s.env usr
    record_entry s.env ctx (update_entry "user.change-profile-picture" user_id prev stored)
    pure (picture_path prev)

  -- `if prevImagePath != "" { … }`
  abbrev pub delete_previous : String → Action S ⊤
  delete_previous path = if path == "" then pure tt else delete_image path

  -- the outcome of the transaction, after which one of two images is deleted
  unfoldable pub clean_up : String → Action S String → Action S ⊤
  unfolding delete_image
  clean_up path m w =
      let (r, w') = m w in
      elim r [
        | ok prev ↦ delete_previous prev w'
        | err e ↦ let (_, w'') = delete_image path w' in (err e, w'')
      ]

  unfoldable pub store_picture : ℕ → ParsedFile → Action S ⊤
  unfolding put_image clean_up change_picture_tx
  store_picture user_id file = do
    put_image (build_image_path file.filename)
    clean_up (build_image_path file.filename)
        (transact s.env (change_picture_tx user_id file.filename))

  -- ChangeProfilePicture
  unfoldable pub change_profile_picture : ℕ → ParsedFile → Action S ⊤
  unfolding store_picture set_name
  change_profile_picture user_id file = do
    check (require_self_or s.table ctx.rbac user_id perm_update)
    n ← call s.env
    named ← λ w. (set_name (s.env.uuid_text n) file, w)
    store_picture user_id named

  -- what follows the lookup in DeleteProfilePicture: a user without a picture is left alone
  abbrev pub clear_picture : ℕ → User → Action S String
  clear_picture user_id prev = if not (Nullable.not_null prev.profile_picture) then pure "" else do
    let usr = with_picture "" prev
    stored ← update_user s.env usr
    record_entry s.env ctx (update_entry "user.delete-profile-picture" user_id prev stored)
    pure (picture_path prev)

  unfoldable pub clear_picture_tx : ℕ → Action S String
  clear_picture_tx user_id = do prev ← get_user_by_id s.env user_id; clear_picture user_id prev

  -- DeleteProfilePicture
  unfoldable pub delete_profile_picture : ℕ → Action S ⊤
  unfolding clear_picture_tx delete_image
  delete_profile_picture user_id = do
    check (require_self_or s.table ctx.rbac user_id perm_update)
    prev ← transact s.env (clear_picture_tx user_id)
    delete_previous prev
