-- ===== src/Http/Failures/Laws.antt =====
-- Which response an error chain comes back as in internal/transport/http/error.go.
use golang_restapi.Base.{
  ℕ, String, Bool, true, false, ◌&&◌, ◌||◌, Option, none, some, ◌≡◌, refl, arith, ◌⊎◌, inl, inr,
  Bool-cases, if◌then◌else◌, ap,
}
use golang_restapi.Errors.{
  AppError, HttpError, Kind, validation, not_found, unauthorized, conflict, forbidden, throttled,
  Err, app, http, plain, fault, deadline_exceeded, canceled, fiber, json_bind, invalid, wrap, join,
  as_app,
}
use golang_restapi.Http.Failures.{
  Cause, timed_out, called_off, other, find, pick_http, pick_deadline, pick_canceled, pick_fiber,
  pick_json_bind, pick_invalid, from_app, app_err_status_code, parse_error,
}
use golang_restapi.World.Action.{⊤}

-- A chain of errors that the services return: those of the domain, of outside code and of contexts.
unfoldable pub is_service : Err → Bool
is_service (app _) = true
is_service (plain _) = true
is_service (fault _) = true
is_service deadline_exceeded = true
is_service canceled = true
is_service (wrap _ e) = is_service e
is_service (join _ e f) = is_service e && is_service f
is_service _ = false

module _ (cause : ℕ → Cause) where
  -- Somewhere in the chain, a context's deadline has passed.
  unfoldable pub has_timed_out : Err → Bool
  has_timed_out deadline_exceeded = true
  has_timed_out (fault n) = elim (cause n) [ timed_out ↦ true | called_off ↦ false | other ↦ false ]
  has_timed_out (wrap _ e) = has_timed_out e
  has_timed_out (join _ e f) = has_timed_out e || has_timed_out f
  has_timed_out _ = false

  -- Somewhere in the chain, a context was canceled.
  unfoldable pub has_called_off : Err → Bool
  has_called_off canceled = true
  has_called_off (fault n) = elim (cause n) [
    | timed_out ↦ false
    | called_off ↦ true
    | other ↦ false
  ]
  has_called_off (wrap _ e) = has_called_off e
  has_called_off (join _ e f) = has_called_off e || has_called_off f
  has_called_off _ = false

-- The status of each kind of domain error.
abbrev pub documented_status : Kind → ℕ
documented_status validation = 422
documented_status not_found = 404
documented_status unauthorized = 401
documented_status conflict = 409
documented_status forbidden = 403
documented_status throttled = 429

abbrev pub unexpected : ℕ → HttpError
unexpected status = record {
  message = "an unexpected error occurred, try again later";
  details = none;
  code = "INTERNAL";
  status = status;
}

abbrev pub too_slow : HttpError
too_slow = record {
  message = "the server took too long to respond";
  details = none;
  code = "SERVER_TIMEOUT";
  status = 504;
}

-- The response to a domain error, or to none.
abbrev pub IsDomainAnswer : Option AppError → HttpError → Type 0
IsDomainAnswer none h = h ≡ unexpected 500
IsDomainAnswer (some a) h = h ≡ record {
  message = a.message;
  details = a.details;
  code = a.code;
  status = documented_status a.kind;
}

module _ {A : Type 0} (pick : Err → Option A) where
  -- Nothing is found that no error of the services is.
  find-none :
      ((a : AppError) → pick (app a) ≡ none)
      → ((s : String) → pick (plain s) ≡ none)
      → ((n : ℕ) → pick (fault n) ≡ none)
      → pick deadline_exceeded ≡ none
      → pick canceled ≡ none
      → (e : Err) → is_service e ≡ true
      → find pick e ≡ none
  unfolding find is_service
  find-none a p f t c (app x) d = a x
  find-none a p f t c (plain s) d = p s
  find-none a p f t c (fault n) d = f n
  find-none a p f t c (wrap m e) d = find-none a p f t c e d
  find-none a p f t c (join m e e') d =
      let first = find-none a p f t c e (ground (arith, d)) in
      let second = find-none a p f t c e' (ground (arith, d)) in ground (arith, first, second)
  find-none a p f t c deadline_exceeded d = t
  find-none a p f t c canceled d = c
  find-none a p f t c (http h) d = absurd (cc)
  find-none a p f t c (fiber n) d = absurd (cc)
  find-none a p f t c (json_bind m) d = absurd (cc)
  find-none a p f t c (invalid x) d = absurd (cc)

abbrev found_if : Bool → Option ⊤
found_if b = if b then some tt else none

module _ (cause : ℕ → Cause) where
  find-timed_out : (e : Err) → find (pick_deadline cause) e ≡ found_if (has_timed_out cause e)
  unfolding find has_timed_out
  find-timed_out (app x) = refl
  find-timed_out (plain s) = refl
  find-timed_out (fault n) =
      elim (cause n)
        as (λ c.
          pick_deadline (λ _. c) (fault n)
          ≡ found_if (elim c [ timed_out ↦ true | called_off ↦ false | other ↦ false ])) [
            | timed_out ↦ refl
            | called_off ↦ refl
            | other ↦ refl
          ]
  find-timed_out (wrap m e) = find-timed_out e
  find-timed_out (join m e f) =
      let first = find-timed_out e in let second = find-timed_out f in ground (arith, first, second)
  find-timed_out deadline_exceeded = refl
  find-timed_out canceled = refl
  find-timed_out (http h) = refl
  find-timed_out (fiber n) = refl
  find-timed_out (json_bind m) = refl
  find-timed_out (invalid x) = refl

  find-called_off : (e : Err) → find (pick_canceled cause) e ≡ found_if (has_called_off cause e)
  unfolding find has_called_off
  find-called_off (app x) = refl
  find-called_off (plain s) = refl
  find-called_off (fault n) =
      elim (cause n)
        as (λ c.
          pick_canceled (λ _. c) (fault n)
          ≡ found_if (elim c [ timed_out ↦ false | called_off ↦ true | other ↦ false ])) [
            | timed_out ↦ refl
            | called_off ↦ refl
            | other ↦ refl
          ]
  find-called_off (wrap m e) = find-called_off e
  find-called_off (join m e f) =
      let first = find-called_off e in
      let second = find-called_off f in ground (arith, first, second)
  find-called_off deadline_exceeded = refl
  find-called_off canceled = refl
  find-called_off (http h) = refl
  find-called_off (fiber n) = refl
  find-called_off (json_bind m) = refl
  find-called_off (invalid x) = refl

  domain-answers : (o : Option AppError) → IsDomainAnswer o (from_app o)
  unfolding from_app app_err_status_code
  domain-answers none = refl
  domain-answers (some a) =
      ap (λ n. record { message = a.message; details = a.details; code = a.code; status = n })
        (status a.kind)
    where
      status : (k : Kind) → app_err_status_code k ≡ documented_status k
      status validation = refl
      status not_found = refl
      status unauthorized = refl
      status conflict = refl
      status forbidden = refl
      status throttled = refl

  -- The response to a chain of errors of the domain, of outside code and of contexts, however often
  -- it was wrapped. If a deadline has passed anywhere in it, the answer is a timeout with status
  -- 504; else, if a context was canceled anywhere in it, the unspecific answer with status 499;
  -- else the first domain error's message, details and code, with status 422, 404, 401, 409, 403 or
  -- 429 by its kind; and where there is none the unspecific answer with status 500.
  pub parse_error-answers :
      (e : Err)
      → is_service e ≡ true
      → ((has_timed_out cause e ≡ true) × (parse_error cause e ≡ too_slow))
        ⊎ ((has_timed_out cause e ≡ false)
            × (((has_called_off cause e ≡ true) × (parse_error cause e ≡ unexpected 499))
                ⊎ ((has_called_off cause e ≡ false)
                    × IsDomainAnswer (as_app e) (parse_error cause e))))
  unfolding parse_error
  parse_error-answers e d =
      let h = find-none pick_http (λ a. refl) (λ s. refl) (λ n. refl) refl refl e d in
      let f = find-none pick_fiber (λ a. refl) (λ s. refl) (λ n. refl) refl refl e d in
      let j = find-none pick_json_bind (λ a. refl) (λ s. refl) (λ n. refl) refl refl e d in
      let i = find-none pick_invalid (λ a. refl) (λ s. refl) (λ n. refl) refl refl e d in
      elim (Bool-cases (has_timed_out cause e)) [
        | inl late ↦ inl (late, rw (h, find-timed_out e, late) refl)
        | inr in_time ↦ inr (
          in_time,
          elim (Bool-cases (has_called_off cause e)) [
            | inl off ↦ inl (off, rw (h, find-timed_out e, in_time, find-called_off e, off) refl)
            | inr on ↦ inr (
              on,
              rw (h, find-timed_out e, in_time, find-called_off e, on, f, j, i)
                  (domain-answers (as_app e)),
            )
          ],
        )
      ]
