-- ===== src/Auth/History/Refused.antt =====
-- Refresh tokens over a history of requests to internal/auth/service.go.
use golang_restapi.Base.{ℕ, String, ◌≡◌, arith, nat_eq}
use golang_restapi.Nullable
use golang_restapi.Auth.Model.{TokenPair}
use golang_restapi.Auth.Session.{Session}
use golang_restapi.World.State.{World}
use golang_restapi.World.Action.{ok}
use golang_restapi.Postgres.Audit.{Ctx}
use golang_restapi.Postgres.Rows.{get_one, one}
use golang_restapi.Auth.Service.Deps.{Service}
use golang_restapi.Auth.Service.Login.{refresh_access_token}
use golang_restapi.Auth.Outcomes.Refresh.{session_of, refresh-ok}
use golang_restapi.Auth.History.Marks.{IsMarked-get_one}
use golang_restapi.Auth.History.Later.{IsRevoked}
use golang_restapi.Auth.History.Requests.{Reach, Reach-Later}

module _ {S : Type 0} (s : Service S) where
  -- If a session was revoked, then after any history of requests no token that names it is
  -- exchanged for new tokens.
  pub refresh-refuses_revoked :
      (start w : World S) (ctx : Ctx) (token : String) (id : ℕ) (sess : Session)
      → IsRevoked id start.db.sessions
      → Reach s start w
      → get_one (session_of s token) w.db.sessions ≡ one sess
      → sess.id ≡ id
      → (pair : TokenPair) (w' : World S) → ¬ (refresh_access_token s ctx token w ≡ (ok pair, w'))
  refresh-refuses_revoked start w ctx token id sess was h found same pair w' e =
      let r = refresh-ok s ctx token w e in
      let later = (Reach-Later s h).sessions id was in
      let known =
        IsMarked-get_one (λ r. r.id) (λ r. Nullable.not_null r.revoked_at) (session_of s token) id
          w.db.sessions sess later found same in
      let unrevoked = r.unrevoked in
      let found' = r.found in let same_sess : sess ≡ r.sess = ground arith in ground arith
