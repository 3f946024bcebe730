-- ===== src/Http/Authenticate/Laws.antt =====
-- Whom authenticatorMiddleware of internal/transport/http/middlewares.go lets through.
use golang_restapi.Base.{
  ℕ, suc, ◌+◌, ◌≤◌, ◌<◌, String, Bool, true, false, some, ◌==◌, nat_eq, string_eq, ◌≡◌, ◌≢◌, refl,
  ◌∙◌, ap, arith, ◌⊎◌, inl, inr,
}
use golang_restapi.Base.Int.{pos, pos_part, is_below}
use golang_restapi.Errors.{Err}
use golang_restapi.Auth.AccessToken.{Verified, verify_access_token, check_claims, check_parsed}
use golang_restapi.Postgres.Audit.{Ctx}
use golang_restapi.Redis.Revocation.{is_revoked, revoke_all_for_user, revocation_ttl}
use golang_restapi.Redis.Revocation.Laws.{revoke_all-revokes}
use golang_restapi.Redis.Keys.{KeyLaws, Traffic}
use golang_restapi.World.Platform.{
  revoked_user, AccessTokenClaims, Parsed, claims, expired, refused,
}
use golang_restapi.World.State.{World}
use golang_restapi.World.Action.{⊤, Result, ok, err, ◌>>=◌}
use golang_restapi.World.Logic.{>>=-ok, throw_if-ok}
use golang_restapi.Http.Authenticate.{
  Authenticator, token_of, admit, check_revocation, authenticate,
}

-- The token that a request was let through with, and what the handler's context says of it.
pub record Admitted {S : Type 0} (am : Authenticator S) (cookie header : String) (ctx ctx' : Ctx)
    (w : World S) : Type 0 where
  pub claims : AccessTokenClaims
  pub identity : Verified
  pub present : token_of cookie header == "" ≡ false
  pub parsed :
      am.env.parse_jwt am.jwt_secret (am.env.clock w.calls) (token_of cookie header)
      ≡ Parsed.claims claims
  pub subject : claims.subject ≡ some identity.user_id
  pub issued : claims.issued_at ≡ some identity.issued_at
  pub session : (identity.session_id ≡ claims.session_id) × (claims.session_id == 0 ≡ false)
  pub role : identity.role ≡ claims.role
  pub context : ctx' ≡ record ctx {
    rbac = some (record {
      actor = record { user_id = some identity.user_id; role = identity.role };
      session_id = identity.session_id;
    });
  }
  -- the outcome of the revocation check, which comes after one call
  pub outcome : Result Bool
  pub checked :
      (is_revoked am.env am.jwt_ttl identity.user_id identity.session_id identity.issued_at
        (record w { calls = w.calls + 1 })).0
      ≡ outcome
  pub allowed : (outcome ≡ ok false) ⊎ ((e : Err) × (outcome ≡ err e) × (am.fail_closed ≡ false))

module _ {S : Type 0} (am : Authenticator S) where
  verified :
      (token : String) (w : World S) {c : Verified} {w' : World S}
      → verify_access_token am.env am.jwt_secret token w ≡ (ok c, w')
      → (a : AccessTokenClaims) × (am.env.parse_jwt am.jwt_secret (am.env.clock w.calls) token
          ≡ Parsed.claims a)
        × (a.subject ≡ some c.user_id)
        × (a.issued_at ≡ some c.issued_at)
        × ((c.session_id ≡ a.session_id) × (a.session_id == 0 ≡ false))
        × (c.role ≡ a.role)
        × (w' ≡ record w { calls = w.calls + 1 })
  unfolding verify_access_token check_claims ◌>>=◌
  verified token w {c} {w'} h =
      go (am.env.parse_jwt am.jwt_secret (am.env.clock w.calls) token) refl h
    where
      go :
          (p : Parsed)
          → am.env.parse_jwt am.jwt_secret (am.env.clock w.calls) token ≡ p
          → check_parsed am.env p (record w { calls = suc w.calls }) ≡ (ok c, w')
          → (a : AccessTokenClaims) × (am.env.parse_jwt am.jwt_secret (am.env.clock w.calls) token
              ≡ Parsed.claims a)
            × (a.subject ≡ some c.user_id)
            × (a.issued_at ≡ some c.issued_at)
            × ((c.session_id ≡ a.session_id) × (a.session_id == 0 ≡ false))
            × (c.role ≡ a.role)
            × (w' ≡ record w { calls = w.calls + 1 })
      go (claims a) e h' = (
        a,
        e,
        ground (arith, h'),
        ground (arith, h'),
        (ground (arith, h'), ground (arith, h')),
        ground (arith, h'),
        ground (arith, h'),
      )
      go expired e h' = absurd (cc)
      go refused e h' = absurd (cc)

  allowed_by :
      (c : Verified) (w : World S) {w' : World S}
      → check_revocation am c w ≡ (ok tt, w')
      → (r : Result Bool) × ((is_revoked am.env am.jwt_ttl c.user_id c.session_id c.issued_at w).0
          ≡ r)
        × ((r ≡ ok false) ⊎ ((e : Err) × (r ≡ err e) × (am.fail_closed ≡ false)))
  unfolding check_revocation
  allowed_by c w {w'} h = go _ refl (ap (λ (p : Result ⊤ × World S). p.0) h)
    where
      go :
          (r : Result Bool)
          → (is_revoked am.env am.jwt_ttl c.user_id c.session_id c.issued_at w).0 ≡ r
          → admit am.fail_closed r ≡ ok tt
          → (r' : Result Bool) × ((is_revoked am.env am.jwt_ttl c.user_id c.session_id c.issued_at
                w).0
              ≡ r')
            × ((r' ≡ ok false) ⊎ ((e : Err) × (r' ≡ err e) × (am.fail_closed ≡ false)))
      go (ok true) e h' = absurd (cc)
      go (ok false) e h' = (ok false, e, inl refl)
      go (err x) e h' = (err x, e, inr (x, refl, ground (arith, h')))

  -- A request that Authenticate lets through had a token, in the cookie or else in the
  -- Authorization header, which the JWT library accepted, with a user, a time of issue and a session
  -- that is not nil; exactly these identify the caller to the handler. The revocation check said
  -- that the token is not revoked, or it failed and the middleware is configured to let that pass.
  pub authenticate-admits :
      (cookie header : String) (ctx ctx' : Ctx) (w w' : World S)
      → authenticate am cookie header ctx w ≡ (ok ctx', w')
      → Admitted am cookie header ctx ctx' w
  unfolding authenticate
  authenticate-admits cookie header ctx ctx' w w' h = throw_if-ok _ _ _ h λ present h1.
      >>=-ok _ _ h1 λ c w1 e1 h2. >>=-ok _ _ h2 λ _ w2 e2 h3.
        let (a, parsed, subject, issued, session, role, same) =
          verified (token_of cookie header) w e1 in
        let (r, checked, allowed) = allowed_by c w1 e2 in
        record {
          claims = a;
          identity = c;
          present = present;
          parsed = parsed;
          subject = subject;
          issued = issued;
          session = session;
          role = role;
          context = ground (arith, h3);
          outcome = r;
          checked = rw same at checked;
          allowed = allowed;
        }

  -- Where Redis obeys the laws of keys, ParseInt reads what FormatInt wrote, and the middleware is
  -- configured to fail closed: once RevokeAllForUser has succeeded, while its marker lives, and
  -- after any calls that neither set nor delete the marker, Authenticate lets no request pass whose
  -- access token names the user and was issued no later than the revocation.
  pub authenticate-refuses_revoked :
      (cookie header : String) (ctx ctx' : Ctx) (user_id issued_at : ℕ) (a : AccessTokenClaims)
      (w w' v v' : World S)
      → KeyLaws am.env.kv
      → ((n : ℕ) → am.env.parse_int (am.env.format_int n) ≡ some (pos n))
      → ((n : ℕ) → am.env.format_int n ≢ "")
      → is_below am.jwt_ttl 1 ≡ false
      → am.fail_closed ≡ true
      → revoke_all_for_user am.env am.jwt_ttl user_id w ≡ (ok tt, w')
      → Traffic am.env.kv (revoked_user user_id) w'.redis v.redis
      → am.env.parse_jwt am.jwt_secret (am.env.clock v.calls) (token_of cookie header)
        ≡ Parsed.claims a
      → a.subject ≡ some user_id
      → a.issued_at ≡ some issued_at
      → issued_at ≤ am.env.clock w.calls
      → am.env.clock (w.calls + 1) ≤ am.env.clock (v.calls + 1)
      → am.env.clock (v.calls + 1)
        < am.env.clock (w.calls + 1) + pos_part (revocation_ttl am.jwt_ttl)
      → ¬ (authenticate am cookie header ctx v ≡ (ok ctx', v'))
  authenticate-refuses_revoked cookie header ctx ctx' user_id issued_at a w w' v v' kept parses
        spells lives closed revoked same reads named at before after within let_in =
      let r = authenticate-admits cookie header ctx ctx' v v' let_in in
      let reads' = r.parsed in
      let subject' = r.subject in
      let issued' = r.issued in
      let same_claims : r.claims ≡ a = ground (arith, reads, reads') in
      let same_user : r.identity.user_id ≡ user_id = ground (arith, same_claims, named, subject') in
      let same_time : r.identity.issued_at ≡ issued_at = ground (arith, same_claims, at, issued') in
      let checked : (is_revoked am.env am.jwt_ttl user_id r.identity.session_id issued_at
            (record v { calls = v.calls + 1 })).0
          ≡ r.outcome =
        rw (← same_user, ← same_time) r.checked in
      elim r.allowed [
        | inr (e, _, open') ↦ absurd (cc (closed, open'))
        | inl passed ↦
            let asked =
              is_revoked am.env am.jwt_ttl user_id r.identity.session_id issued_at
                (record v { calls = v.calls + 1 }) in
            revoke_all-revokes am.env am.jwt_ttl user_id r.identity.session_id issued_at w w'
              (record v { calls = v.calls + 1 }) asked.1 kept parses spells lives revoked before
              same after within (ap (λ (x : Result Bool). (x, asked.1)) (checked ∙ passed))
      ]
