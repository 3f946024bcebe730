-- ===== src/Auth/Model.antt =====
-- internal/auth/model.go: inputs, results and messages of the auth service.
use golang_restapi.Base.{ℕ, ◌+◌, ◌-◌, String}
use golang_restapi.Base.Int.{ℤ, pos_part, neg_part}

-- time.Time.Add; a time before Go's zero time is not represented.
abbrev pub add_duration : ℕ → ℤ → ℕ
add_duration t d = t + pos_part d - neg_part d

pub record RegisterInput : Type 0 where
  pub name : String
  pub email : String

pub record CompleteRegistrationInput : Type 0 where
  pub token : String
  pub password : String

pub record LoginInput : Type 0 where
  pub email : String
  pub password : String

pub record ResetPasswordInput : Type 0 where
  pub token : String
  pub new_password : String

pub record ChangePasswordInput : Type 0 where
  pub password : String
  pub new_password : String

pub record TokenPair : Type 0 where
  pub access_token : String
  pub refresh_token : String

-- PasswordRecoveryMessage and CompleteRegistrationMessage, one for each stream
pub data Event : Type 0 where
  password_recovery : (recipient name reset_url : String) (expiry : ℤ) → Event
  complete_registration : (recipient name url : String) (expiry : ℤ) → Event
