-- ===== src/Errors.antt =====
-- The error values of the program: internal/apperr (the typed error kernel) and the chains that
-- fmt.Errorf builds with %w, as errors.Is and errors.As read them.
use golang_restapi.Base.{
  ℕ, String, Bool, false, ◌&&◌, ◌||◌, Option, none, some, List, [], ◌∷◌, ◌==◌, nat_eq, string_eq,
  if◌then◌else◌,
}

-- internal/apperr/kind.go
pub data Kind : Type 0 where
  validation not_found unauthorized conflict forbidden throttled : Kind

-- The value that iota gives a kind.
abbrev pub iota : Kind → ℕ
iota validation = 0
iota not_found = 1
iota unauthorized = 2
iota conflict = 3
iota forbidden = 4
iota throttled = 5

-- The dynamic values that the program attaches to an error as details.
pub data Details : Type 0 where
  text : String → Details
  fields : List (String × String) → Details
  throttle : Bool → ℕ → Details
  identifier : String → ℕ → Details
  sizes : (max_bytes received_bytes : ℕ) → Details
  mimes : (claimed actual : String) (allowed : List String) → Details

-- type Error of internal/apperr/error.go
pub record AppError : Type 0 where
  pub message : String
  pub details : Option Details
  pub code : String
  pub kind : Kind

-- type Error of internal/transport/http/error.go
pub record HttpError : Type 0 where
  pub message : String
  pub details : Option Details
  pub code : String
  pub status : ℕ

-- The dynamic type of an error that the program tests. `fault n` is the error that the n-th call
-- of outside code returned; `wrap` is fmt.Errorf with one %w, `join` with two.
pub data Err : Type 0 where
  app : AppError → Err
  http : HttpError → Err
  plain : String → Err
  fault : ℕ → Err
  deadline_exceeded canceled : Err
  fiber : ℕ → Err
  json_bind : String → Err
  invalid : Details → Err
  wrap : String → Err → Err
  join : String → Err → Err → Err

-- constructErr: the code argument is variadic.
unfoldable pub construct_err : Kind → String → String → List String → AppError
construct_err kind default_code msg [] = record {
  message = msg;
  details = none;
  code = default_code;
  kind = kind;
}
construct_err kind default_code msg (c ∷ _) = record {
  message = msg;
  details = none;
  code = if c == "" then default_code else c;
  kind = kind;
}

unfoldable pub unauthorized_err : String → List String → AppError
unfolding construct_err
unauthorized_err = construct_err unauthorized "UNAUTHORIZED"

unfoldable pub conflict_err : String → List String → AppError
unfolding construct_err
conflict_err = construct_err conflict "CONFLICT"

unfoldable pub forbidden_err : String → List String → AppError
unfolding construct_err
forbidden_err = construct_err forbidden "FORBIDDEN"

unfoldable pub validation_err : String → List String → AppError
unfolding construct_err
validation_err = construct_err validation "DOMAIN_VALIDATION"

unfoldable pub throttled_err : String → List String → AppError
unfolding construct_err
throttled_err = construct_err throttled "THROTTLED"

unfoldable pub err_not_found : AppError
unfolding construct_err
err_not_found =
    construct_err not_found "RESOURCE_NOT_FOUND" "the requested resource was not found" []

-- Error.WithDetails, with details that are not nil
abbrev pub with_details : AppError → Details → AppError
with_details e d = record e { details = some d }

-- Error.SetMessage
abbrev pub set_message : AppError → String → AppError
set_message e m = record e { message = m }

-- errors.As with a target of type *apperr.Error: the first in the chain
unfoldable pub as_app : Err → Option AppError
as_app (app e) = some e
as_app (wrap _ e) = as_app e
as_app (join _ e f) = elim (as_app e) [ none ↦ as_app f | some a ↦ some a ]
as_app _ = none

-- Error.Is for a target that is an *apperr.Error
unfoldable pub same_error : AppError → AppError → Bool
same_error e t = iota e.kind == iota t.kind && e.code == t.code

-- errors.Is for a target that is an *apperr.Error
unfoldable pub is : Err → AppError → Bool
unfolding same_error
is (app e) t = same_error e t
is (wrap _ e) t = is e t
is (join _ e f) t = is e t || is f t
is _ t = false
