-- ===== src/User.antt =====
-- internal/user/user.go and gender.go: the user entity and its validation.
pub mod Service
pub mod Outcomes
use golang_restapi.Base.{
  ℕ, String, Bool, false, not, ◌&&◌, ◌||◌, Option, none, some, ◌==◌, nat_eq, string_eq,
  if◌then◌else◌,
}
use golang_restapi.Errors.{AppError, Err, app, text, conflict_err, validation_err, with_details}
use golang_restapi.Base.{[], ◌∷◌}
use golang_restapi.Nullable
use golang_restapi.Nullable.{Nullable, null, nat_zero, string_zero}
use golang_restapi.Rbac.{Role, role_user, is_valid_role}

abbrev pub Gender : Type 0
Gender = String

-- Gender.IsValid
unfoldable pub is_valid_gender : Gender → Bool
is_valid_gender g = g == "M" || g == "F" || g == "O"

unfoldable pub err_email_conflict : AppError
unfolding conflict_err
err_email_conflict = conflict_err "email already exists" ("USER_EMAIL_CONFLICT" ∷ [])

unfoldable pub err_validation : AppError
unfolding validation_err
err_validation = validation_err "invalid user data" ("USER_VALIDATION" ∷ [])

-- type User. A time is the number of nanoseconds since Go's zero time.
pub record User : Type 0 where
  pub id : ℕ
  pub name : String
  pub email : String
  pub email_verified_at : Nullable ℕ
  pub password : String
  pub gender : Nullable Gender
  pub phone : Nullable String
  pub role : Role
  pub profile_picture : Nullable String
  pub created_at : ℕ
  pub updated_at : ℕ

abbrev invalid_user : String → Option Err
invalid_user why = some (app (with_details err_validation (text why)))

-- User.Validate; `parses` is whether mail.ParseAddress accepts an address.
unfoldable pub validate : (String → Bool) → User → Option Err
unfolding err_validation is_valid_gender is_valid_role
validate parses u =
    if u.name == ""
    then invalid_user "name is required"
    else if u.email == ""
    then invalid_user "email is required"
    else if not (parses u.email)
    then invalid_user "email must be a valid email address"
    else if u.password == ""
    then invalid_user "password is required"
    else if Nullable.not_null u.gender && not (is_valid_gender (Nullable.get u.gender))
    then invalid_user "invalid gender"
    else if not (is_valid_role u.role)
    then invalid_user "invalid role"
    else none

-- The struct that New fills, before its validation: `id` and `now` are read outside.
unfoldable pub fresh_user : ℕ → ℕ → String → String → String → User
unfolding Nullable.set
fresh_user id now name email hashed_password = record {
  id = id;
  name = name;
  email = email;
  email_verified_at = Nullable.set now false null;
  password = hashed_password;
  gender = null;
  phone = null;
  role = role_user;
  profile_picture = null;
  created_at = 0;
  updated_at = 0;
}
