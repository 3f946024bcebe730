-- ===== src/Http/Failures.antt =====
-- ParseError of internal/transport/http/error.go: the response that an error comes back as.
pub mod Laws
use golang_restapi.Base.{
  ℕ, String, Bool, true, false, ◌||◌, Option, none, some, [], ◌==◌, nat_eq, if◌then◌else◌,
}
use golang_restapi.World.Action.{⊤}
use golang_restapi.Errors.{
  Kind, validation, not_found, unauthorized, conflict, forbidden, throttled, AppError, HttpError,
  Err, Details, app, http, plain, fault, deadline_exceeded, canceled, fiber, json_bind, invalid,
  wrap, join, as_app,
}

-- errors.As and errors.Is: the first error in the chain that `pick` takes
unfoldable pub find : {A : Type 0} → (Err → Option A) → Err → Option A
find pick (wrap _ e) = find pick e
find pick (join _ e f) = elim (find pick e) [ none ↦ find pick f | some a ↦ some a ]
find pick (app a) = pick (app a)
find pick (http h) = pick (http h)
find pick (plain s) = pick (plain s)
find pick (fault n) = pick (fault n)
find pick deadline_exceeded = pick deadline_exceeded
find pick canceled = pick canceled
find pick (fiber n) = pick (fiber n)
find pick (json_bind m) = pick (json_bind m)
find pick (invalid d) = pick (invalid d)

abbrev pub pick_http : Err → Option HttpError
pick_http (http h) = some h
pick_http _ = none

-- What errors.Is finds in the error of outside code, which may wrap that of a context.
pub data Cause : Type 0 where
  timed_out called_off other : Cause

abbrev pub is_timed_out : Cause → Option ⊤
is_timed_out timed_out = some tt
is_timed_out _ = none

abbrev pub is_called_off : Cause → Option ⊤
is_called_off called_off = some tt
is_called_off _ = none

abbrev pub pick_deadline : (ℕ → Cause) → Err → Option ⊤
pick_deadline cause deadline_exceeded = some tt
pick_deadline cause (fault n) = is_timed_out (cause n)
pick_deadline cause _ = none

abbrev pub pick_canceled : (ℕ → Cause) → Err → Option ⊤
pick_canceled cause canceled = some tt
pick_canceled cause (fault n) = is_called_off (cause n)
pick_canceled cause _ = none

abbrev pub pick_fiber : Err → Option ℕ
pick_fiber (fiber n) = some n
pick_fiber _ = none

abbrev pub pick_json_bind : Err → Option String
pick_json_bind (json_bind m) = some m
pick_json_bind _ = none

abbrev pub pick_invalid : Err → Option Details
pick_invalid (invalid d) = some d
pick_invalid _ = none

-- appErrStatusMap, which has every kind
unfoldable pub app_err_status_code : Kind → ℕ
app_err_status_code not_found = 404
app_err_status_code validation = 422
app_err_status_code conflict = 409
app_err_status_code forbidden = 403
app_err_status_code unauthorized = 401
app_err_status_code throttled = 429

-- the body that ParseError starts from
abbrev pub internal : HttpError
internal = record {
  message = "an unexpected error occurred, try again later";
  details = none;
  code = "INTERNAL";
  status = 500;
}

abbrev pub err_body_too_large : HttpError
err_body_too_large = record {
  message = "request body too large";
  details = some (Details.identifier "max_bytes" 5_242_880);
  code = "BODY_TOO_LARGE";
  status = 413;
}

-- The cases of the switch, the last one first.
unfoldable pub from_app : Option AppError → HttpError
unfolding app_err_status_code
from_app none = internal
from_app (some a) = record {
  message = a.message;
  details = a.details;
  code = a.code;
  status = app_err_status_code a.kind;
}

unfoldable pub from_invalid : Option Details → HttpError → HttpError
from_invalid none next = next
from_invalid (some d) next = record {
  message = "the request contains invalid data";
  details = some d;
  code = "VALIDATION";
  status = 422;
}

unfoldable pub from_json_bind : Option String → HttpError → HttpError
from_json_bind none next = next
from_json_bind (some m) next = record {
  message = m;
  details = none;
  code = "REQ_MALFORMED_JSON";
  status = 400;
}

unfoldable pub from_fiber : Option ℕ → HttpError → HttpError
from_fiber none next = next
from_fiber (some n) next = if n == 413 then err_body_too_large else internal

unfoldable pub from_canceled : Option ⊤ → HttpError → HttpError
from_canceled none next = next
from_canceled (some _) next = record internal { status = 499 }

unfoldable pub from_deadline : Option ⊤ → HttpError → HttpError
from_deadline none next = next
from_deadline (some _) next = record {
  message = "the server took too long to respond";
  details = none;
  code = "SERVER_TIMEOUT";
  status = 504;
}

unfoldable pub from_http : Option HttpError → HttpError → HttpError
from_http none next = next
from_http (some h) next = h

-- ParseError, given the cause of the n-th call's error
unfoldable pub parse_error : (ℕ → Cause) → Err → HttpError
unfolding find as_app from_app from_invalid from_json_bind from_fiber from_canceled from_deadline
    from_http
parse_error cause e = from_http (find pick_http e) (
    from_deadline (find (pick_deadline cause) e) (
      from_canceled (find (pick_canceled cause) e) (
        from_fiber (find pick_fiber e) (
          from_json_bind (find pick_json_bind e)
            (from_invalid (find pick_invalid e) (from_app (as_app e)))))))
