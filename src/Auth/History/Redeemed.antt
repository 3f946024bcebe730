-- ===== src/Auth/History/Redeemed.antt =====
-- Invitations and password recovery tokens over a history of requests to internal/auth/service.go.
use mathlib.Core.Path.{subst}
use golang_restapi.Base.{ℕ, true, false, some, ◌≡◌, ◌≢◌, refl, sym, arith, ◌==◌, nat_eq}
use golang_restapi.Nullable
use golang_restapi.Auth.Model.{CompleteRegistrationInput, ResetPasswordInput}
use golang_restapi.Auth.RegistrationToken
use golang_restapi.Auth.RegistrationToken.{RegistrationToken}
use golang_restapi.Auth.PasswordRecoveryToken
use golang_restapi.Auth.PasswordRecoveryToken.{PasswordRecoveryToken}
use golang_restapi.World.State.{World}
use golang_restapi.World.Action.{ok}
use golang_restapi.Postgres.Audit.{Ctx}
use golang_restapi.Postgres.Rows.{get_one, one}
use golang_restapi.Postgres.Tokens.{write_used, write_recovery_used}
use golang_restapi.Auth.Service.Deps.{Service}
use golang_restapi.Auth.Service.Register.{finish_registration}
use golang_restapi.Auth.Service.Passwords.{reset_password}
use golang_restapi.Auth.Outcomes.Register.{finish_registration-ok}
use golang_restapi.Auth.Outcomes.Reset.{reset_password-ok}
use golang_restapi.Auth.History.Marks.{IsMarked-get_one, IsMarked-made}
use golang_restapi.Auth.History.Later.{IsSpent, IsUsed, is_spent}
use golang_restapi.Auth.History.Requests.{Reach, Reach-Later}

marks_used :
    (t t' : RegistrationToken) (now used : ℕ)
    → used ≢ 0
    → RegistrationToken.mark_used now used t ≡ some t'
    → Nullable.not_null t'.used_at ≡ true
unfolding RegistrationToken.mark_used Nullable.set
marks_used t t' now used ne h = ground arith

unspent :
    (now : ℕ) (t : RegistrationToken) → RegistrationToken.is_valid now t ≡ true → is_spent t ≡ false
unfolding RegistrationToken.is_valid
unspent now t h = ground arith

sets_used :
    (t : PasswordRecoveryToken) (used : ℕ)
    → used ≢ 0
    → Nullable.not_null (PasswordRecoveryToken.mark_used used t).used_at ≡ true
unfolding PasswordRecoveryToken.mark_used Nullable.set
sets_used t used ne = ground arith

unused :
    (t : PasswordRecoveryToken)
    → PasswordRecoveryToken.is_used t ≡ false
    → Nullable.not_null t.used_at ≡ false
unfolding PasswordRecoveryToken.is_used
unused t h = h

module _ {S : Type 0} (s : Service S) where
  -- Where the clock never reads Go's zero time: after a registration was completed with an
  -- invitation, and after any history of requests that follows, no completion with a token that
  -- names this invitation succeeds.
  pub registration-redeems_once :
      (ctx ctx' : Ctx) (inp inp' : CompleteRegistrationInput) (w w' v : World S)
      (t t' : RegistrationToken)
      → ((n : ℕ) → s.env.clock n ≢ 0)
      → get_one (λ r. r.token_hash == s.env.sha256 inp.token) w.db.registration_tokens ≡ one t
      → finish_registration s ctx inp w ≡ (ok tt, w')
      → Reach s w' v
      → get_one (λ r. r.token_hash == s.env.sha256 inp'.token) v.db.registration_tokens ≡ one t'
      → t'.id ≡ t.id
      → (v' : World S) → ¬ (finish_registration s ctx' inp' v ≡ (ok tt, v'))
  registration-redeems_once ctx ctx' inp inp' w w' v t t' ticks found done h found' same v' again =
      let r = finish_registration-ok s ctx inp w w' done in
      let r' = finish_registration-ok s ctx' inp' v v' again in
      let first = r.found in
      let second = r'.found in
      let one_t : t ≡ r.token = ground arith in
      let one_t' : t' ≡ r'.token = ground arith in
      let used =
        marks_used r.token r.spent (s.env.clock r.at) (s.env.clock r.used) (ticks r.used)
          r.marked in
      let mark : IsSpent r.spent.id w'.db.registration_tokens =
        subst (IsSpent r.spent.id) (sym r.written) (
          IsMarked-made (λ x. x.id) is_spent (write_used r.spent) r.spent.id
            (λ x. x.token_hash == s.env.sha256 inp.token) w.db.registration_tokens r.token
            (λ x. refl) (λ x. ground (arith, used)) r.found (sym r.same_token)) in
      let later = (Reach-Later s h).registrations r.spent.id mark in
      let spent =
        IsMarked-get_one (λ x. x.id) is_spent (λ x. x.token_hash == s.env.sha256 inp'.token)
          r.spent.id v.db.registration_tokens t' later found' (cc (same, one_t, r.same_token)) in
      let fresh = unspent (s.env.clock r'.at) r'.token r'.valid in cc (spent, fresh, one_t')

  -- Where the clock never reads Go's zero time: after a password was reset with a recovery token,
  -- and after any history of requests that follows, no reset with a text that names this token
  -- succeeds.
  pub recovery-redeems_once :
      (ctx ctx' : Ctx) (inp inp' : ResetPasswordInput) (w w' v : World S)
      (t t' : PasswordRecoveryToken)
      → ((n : ℕ) → s.env.clock n ≢ 0)
      → get_one (λ r. r.token_hash == s.env.sha256 inp.token) w.db.recovery_tokens ≡ one t
      → reset_password s ctx inp w ≡ (ok tt, w')
      → Reach s w' v
      → get_one (λ r. r.token_hash == s.env.sha256 inp'.token) v.db.recovery_tokens ≡ one t'
      → t'.id ≡ t.id
      → (v' : World S) → ¬ (reset_password s ctx' inp' v ≡ (ok tt, v'))
  recovery-redeems_once ctx ctx' inp inp' w w' v t t' ticks found done h found' same v' again =
      let r = reset_password-ok s ctx inp w w' done in
      let r' = reset_password-ok s ctx' inp' v v' again in
      let first = r.found in
      let second = r'.found in
      let one_t : t ≡ r.token = ground arith in
      let one_t' : t' ≡ r'.token = ground arith in
      let used = sets_used r.token (s.env.clock r.used) (ticks r.used) in
      let mark : IsUsed r.token.id w'.db.recovery_tokens =
        subst (IsUsed r.token.id) (sym r.written) (
          IsMarked-made (λ x. x.id) (λ x. Nullable.not_null x.used_at)
            (write_recovery_used (PasswordRecoveryToken.mark_used (s.env.clock r.used) r.token))
            r.token.id (λ x. x.token_hash == s.env.sha256 inp.token) w.db.recovery_tokens r.token
            (λ x. refl) (λ x. used) r.found refl) in
      let later = (Reach-Later s h).recoveries r.token.id mark in
      let spent =
        IsMarked-get_one (λ x. x.id) (λ x. Nullable.not_null x.used_at)
          (λ x. x.token_hash == s.env.sha256 inp'.token) r.token.id v.db.recovery_tokens t' later
          found' (cc (same, one_t)) in
      let fresh = unused r'.token r'.unused in cc (spent, fresh, one_t')
