-- ===== src/Tests/Fixture.antt =====
-- A concrete environment, service and state, for the examples.
use golang_restapi.Base.{
  ◌+◌, ◌*◌, true, false, none, some, [], ◌∷◌, concat, ◌==◌, string_eq, nat_eq,
}
use golang_restapi.Base.Int.{pos}
use golang_restapi.Nullable.{null, nat_zero, string_zero}
use golang_restapi.Rbac.{role_user, role_admin}
use golang_restapi.User.{User}
use golang_restapi.User.Service
use golang_restapi.User.Service.{UserService}
use golang_restapi.Http.Upload.{ParsedFile}
use golang_restapi.Auth.Session.{Session}
use golang_restapi.Auth.RegistrationToken.{RegistrationToken}
use golang_restapi.Auth.PasswordRecoveryToken.{PasswordRecoveryToken}
use golang_restapi.World.Platform.{Env, Parsed}
use golang_restapi.World.State.{Db, World}
use golang_restapi.Postgres.Audit.{Ctx, AuditContext}
use golang_restapi.Redis.Revocation.{unix_epoch, second}
use golang_restapi.Auth.Service.Deps.{Service, perm_tables}
use golang_restapi.Tests.Store.{Store, store, unary, parse_unary}
use Prim.Native.String.{count}

-- Texts hash to their lengths, and the random ones are longer with each call.
abbrev pub platform : Env Store
platform = record {
  clock = λ n. unix_epoch + 1 + n;
  fault = λ n. false;
  random_text = λ n size. unary (30 + n);
  uuid_v7 = λ n. 100 + n;
  uuid_text = λ n. unary n;
  identity = λ n. 200 + n;
  sha256 = λ s. count s;
  bcrypt_generate = λ n p. some (concat "hash of " p);
  bcrypt_matches = λ h p. h == concat "hash of " p;
  parse_address = λ s. true;
  numeric_date = λ t. t;
  sign_jwt = λ secret c. some "jwt";
  parse_jwt = λ secret now t. Parsed.refused;
  format_int = unary;
  parse_int = parse_unary;
  to_upper = λ s. s;
  kv = store;
}

abbrev pub service : Service Store
service = record {
  env = platform;
  cfg = record {
    internal_mode = true;
    jwt_secret = "secret";
    jwt_ttl = pos (900 * second);
    session_ttl = pos (604_800 * second);
    password_recovery_token_ttl = pos (600 * second);
    registration_token_ttl = pos (86_400 * second);
    reset_password_form_endpoint = "https://app/reset";
    complete_registration_form_endpoint = "https://app/register";
  };
  table = perm_tables;
}

abbrev pub ann : User
ann = record {
  id = 7;
  name = "Ann";
  email = "ann@example.com";
  email_verified_at = null;
  password = "hash of old";
  gender = null;
  phone = null;
  role = role_user;
  profile_picture = null;
  created_at = unix_epoch;
  updated_at = unix_epoch;
}

abbrev pub session_of_ann : Session
session_of_ann = record {
  id = 41;
  user_id = 7;
  refresh_token_hash = 4;
  ip_addr = "::1";
  user_agent = "test";
  accessed_at = unix_epoch;
  created_at = unix_epoch;
  expires_at = unix_epoch + 1_000_000;
  revoked_at = null;
}

-- a session that was revoked, with another token
abbrev pub revoked_session_of_ann : Session
revoked_session_of_ann = record session_of_ann {
  id = 40;
  refresh_token_hash = 7;
  revoked_at = record { val = unix_epoch; valid = true };
}

abbrev pub invitation : RegistrationToken
invitation = record {
  id = 3;
  name = "Bob";
  email = "bob@example.com";
  token_hash = 5;
  created_at = unix_epoch;
  expires_at = unix_epoch + 1_000_000;
  used_at = null;
  revoked_at = null;
}

abbrev pub recovery : PasswordRecoveryToken
recovery = record {
  id = 9;
  user_id = 7;
  token_hash = 6;
  issued_at = unix_epoch;
  expires_at = unix_epoch + 1_000_000;
  used_at = null;
}

abbrev pub db : Db
db = record {
  users = record { user = ann; deleted_at = null } ∷ [];
  sessions = session_of_ann ∷ revoked_session_of_ann ∷ [];
  registration_tokens = invitation ∷ [];
  recovery_tokens = recovery ∷ [];
  audit_logs = [];
}

abbrev pub world : World Store
world = record { db = db; redis = []; storage = []; calls = 0 }

abbrev pub audit : AuditContext
audit = record { ip = "::1"; request_id = "r"; user_agent = "test" }

-- a request of ann's, and one of an administrator's
abbrev pub as_ann : Ctx
as_ann = record {
  rbac = some (record { actor = record { user_id = some 7; role = role_user }; session_id = 41 });
  audit = some audit;
}

abbrev pub as_admin : Ctx
as_admin = record {
  rbac = some (record { actor = record { user_id = some 8; role = role_admin }; session_id = 50 });
  audit = some audit;
}

-- the user service over the same platform
abbrev pub users : UserService Store
users = record { env = platform; jwt_ttl = pos (900 * second); table = Service.perm_tables }

abbrev pub portrait : ParsedFile
portrait = record {
  header = some (record {
    filename = "me.png";
    size = 3;
    content_type = "image/png";
    content = 1 ∷ 2 ∷ 3 ∷ [];
  });
  filename = "me.png";
  size = 3;
  content_type = "image/png";
  file = none;
}
