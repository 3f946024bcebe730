-- ===== src/Tests/Tokens.antt =====
-- Access tokens: one that is signed and verified, and one that the middleware is given.
use golang_restapi.Base.{
  ℕ, ◌+◌, ◌*◌, Bool, true, false, ◌&&◌, Option, none, some, ◌==◌, nat_eq, string_eq, ◌≡◌, refl,
  arith, if◌then◌else◌, str_beq_iff,
}
use golang_restapi.Base.Int.{ℤ, pos}
use golang_restapi.Auth.AccessToken.{verify_access_token, IsSigned, sign-verify, check_claims}
use golang_restapi.Auth.Crypto.{sign_access_token}
use golang_restapi.Http.Authenticate.{
  Authenticator, token_of, cut_prefix, check_revocation, authenticate,
}
use golang_restapi.Http.Authenticate.Laws.{
  Admitted, authenticate-admits, authenticate-refuses_revoked,
}
use golang_restapi.Postgres.Audit.{Ctx}
use golang_restapi.Redis.Revocation.{
  second, unix_epoch, revocation_ttl, revoke_all_for_user, is_revoked,
}
use golang_restapi.Redis.Keys.{Traffic, begin, set}
use golang_restapi.World.Platform.{throttle, revoked_user, Env, AccessTokenClaims, Parsed}
use golang_restapi.World.State.{World}
use golang_restapi.World.Action.{ok, ◌>>=◌}
use golang_restapi.Tests.Store.{Store, store, store-KeyLaws, parse-unary, unary-nonempty}
use golang_restapi.Tests.Fixture.{platform, world, as_ann}

same_option : Option ℕ → Option ℕ → Bool
same_option none none = true
same_option (some a) (some b) = a == b
same_option _ _ = false

same_option-eq : (a b : Option ℕ) → same_option a b ≡ true → a ≡ b
unfolding same_option
same_option-eq none none h = refl
same_option-eq (some a) (some b) h = ground arith
same_option-eq none (some b) h = absurd (cc)
same_option-eq (some a) none h = absurd (cc)

-- what SignAccessToken signs at the concrete state
abbrev ann_claims : AccessTokenClaims
ann_claims = record {
  subject = some 7;
  session_id = 41;
  role = "user";
  issued_at = some (unix_epoch + 1);
  expires_at = some (unix_epoch + 1 + 900 * second);
}

is_of_ann : AccessTokenClaims → Bool
unfolding same_option
is_of_ann c =
    same_option c.subject ann_claims.subject
    && c.session_id == 41
    && c.role == "user"
    && same_option c.issued_at ann_claims.issued_at
    && same_option c.expires_at ann_claims.expires_at

is_of_ann-eq : (c : AccessTokenClaims) → is_of_ann c ≡ true → c ≡ ann_claims
unfolding is_of_ann
is_of_ann-eq c h =
    let subject = same_option-eq c.subject ann_claims.subject (ground arith) in
    let issued = same_option-eq c.issued_at ann_claims.issued_at (ground arith) in
    let expires = same_option-eq c.expires_at ann_claims.expires_at (ground arith) in
    let session : c.session_id ≡ 41 = ground arith in
    let role = (str_beq_iff c.role "user").0 (ground arith) in cc

-- A library that signs these claims only.
abbrev signing : Env Store
signing = record platform {
  sign_jwt = λ secret c. if is_of_ann c then some "jwt" else none;
  parse_jwt = λ secret now t. Parsed.claims ann_claims;
}

signing-IsSigned : IsSigned signing
signing-IsSigned secret token c exp now signed expires before =
    let same = is_of_ann-eq c (ground arith) in ground (arith, same)

abbrev hour : ℤ
hour = pos (900 * second)

abbrev signed_world : World Store
signed_world = (sign_access_token signing "secret" hour 7 41 "user" world).1

signs : sign_access_token signing "secret" hour 7 41 "user" world ≡ (ok "jwt", signed_world)
unfolding sign_access_token ◌>>=◌ is_of_ann same_option
signs = refl

abbrev soon : World Store
soon = record world { calls = 5 }

sign-verify_example :
    (verify_access_token signing "secret" "jwt" soon).0
    ≡ ok (record { user_id = 7; session_id = 41; role = "user"; issued_at = unix_epoch + 1 })
sign-verify_example =
    sign-verify signing "secret" "jwt" hour 7 41 "user" world signed_world soon signing-IsSigned
      signs refl (ground arith)

abbrev middleware : Authenticator Store
middleware = record { env = signing; jwt_ttl = hour; jwt_secret = "secret"; fail_closed = true }

abbrev anonymous : Ctx
anonymous = record { rbac = none; audit = as_ann.audit }

abbrev served : World Store
served = (authenticate middleware "" "Bearer jwt" anonymous world).1

passes :
    authenticate middleware "" "Bearer jwt" anonymous world
    ≡ (ok (record as_ann { audit = as_ann.audit }), served)
unfolding authenticate ◌>>=◌ verify_access_token check_claims token_of cut_prefix check_revocation
    is_revoked store
passes = refl

authenticate-admits_example :
    Admitted middleware "" "Bearer jwt" anonymous (record as_ann { audit = as_ann.audit }) world
authenticate-admits_example =
    authenticate-admits middleware "" "Bearer jwt" anonymous
      (record as_ann { audit = as_ann.audit }) world served passes

abbrev marked : World Store
marked = (revoke_all_for_user signing hour 7 world).1

marks : revoke_all_for_user signing hour 7 world ≡ (ok tt, marked)
unfolding revoke_all_for_user ◌>>=◌
marks = refl

lasting : revocation_ttl hour ≡ pos (905 * second)
unfolding revocation_ttl
lasting = refl

-- after another request was throttled
abbrev later : World Store
later = record marked {
  redis = store.set (throttle "recover-password:ben") "L" hour 5 marked.redis;
  calls = 10;
}

since : Traffic store (revoked_user 7) marked.redis later.redis
since = set begin (throttle "recover-password:ben") "L" hour 5 λ e. absurd (cc)

authenticate-refuses_revoked_example :
    ¬ (authenticate middleware "" "Bearer jwt" anonymous later ≡ (ok as_ann, later))
authenticate-refuses_revoked_example =
    authenticate-refuses_revoked middleware "" "Bearer jwt" anonymous as_ann 7 (unix_epoch + 1)
      ann_claims world marked later later store-KeyLaws parse-unary unary-nonempty refl refl marks
      since refl refl refl (ground arith) (ground arith) (ground (arith, lasting))
