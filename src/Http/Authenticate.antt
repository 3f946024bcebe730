-- ===== src/Http/Authenticate.antt =====
-- authenticatorMiddleware of internal/transport/http/middlewares.go. The check's time limit is one
-- of the ways in which a call of the outside can fail.
pub mod Laws
use golang_restapi.Base.{
  ℕ, String, Bool, true, false, Option, none, some, ◌==◌, nat_eq, string_eq, if◌then◌else◌,
}
use golang_restapi.Base.Int.{ℤ}
use golang_restapi.Errors.{Err, app, HttpError}
use golang_restapi.Auth.Session.{err_session_invalid}
use golang_restapi.Auth.AccessToken.{Verified, verify_access_token}
use golang_restapi.Postgres.Audit.{Ctx}
use golang_restapi.Redis.Revocation.{is_revoked}
use golang_restapi.World.Platform.{Env}
use golang_restapi.World.Action.{⊤, Result, ok, err, Action, pure, ◌>>=◌, ◌>>◌, throw_if}
use Prim.Native.Char.{code}
use Prim.Native.String

-- The checker is the revocation store of Redis, over `env` with `jwt_ttl`.
pub record Authenticator (S : Type 0) : Type 0 where
  pub env : Env S
  pub jwt_ttl : ℤ
  pub jwt_secret : String
  pub fail_closed : Bool

abbrev pub err_req_unauthorized : HttpError
err_req_unauthorized = record {
  message = "authentication required";
  details = none;
  code = "REQ_UNAUTHORIZED";
  status = 401;
}

-- strings.CutPrefix
unfoldable pub cut_prefix : String → String → Option String
cut_prefix s String.[] = some s
cut_prefix String.[] (String.◌∷◌ p prefix) = none
cut_prefix (String.◌∷◌ c s) (String.◌∷◌ p prefix) =
    let rest = cut_prefix s prefix in if code c == code p then rest else none

abbrev after_prefix : Option String → String
after_prefix none = ""
after_prefix (some after) = after

-- the token: the cookie, or what follows the scheme in the Authorization header; "" for neither
unfoldable pub token_of : String → String → String
unfolding cut_prefix
token_of cookie header = if cookie == "" then after_prefix (cut_prefix header "Bearer ") else cookie

-- what the outcome of the check lets through
abbrev pub admit : Bool → Result Bool → Result ⊤
admit fail_closed (err _) = if fail_closed then err (app err_session_invalid) else ok tt
admit fail_closed (ok true) = err (app err_session_invalid)
admit fail_closed (ok false) = ok tt

module _ {S : Type 0} (am : Authenticator S) where
  -- the revocation check
  unfoldable pub check_revocation : Verified → Action S ⊤
  check_revocation c w =
      let (r, w') = is_revoked am.env am.jwt_ttl c.user_id c.session_id c.issued_at w in
      (admit am.fail_closed r, w')

  -- Authenticate, up to c.Next: the context that the handler is given
  unfoldable pub authenticate : String → String → Ctx → Action S Ctx
  unfolding token_of check_revocation
  authenticate cookie header ctx = do
    throw_if (token_of cookie header == "") (Err.http err_req_unauthorized)
    c ← verify_access_token am.env am.jwt_secret (token_of cookie header)
    check_revocation c
    pure (record ctx {
      rbac = some (record {
        actor = record { user_id = some c.user_id; role = c.role };
        session_id = c.session_id;
      });
    })
