-- ===== src/World/Platform.antt =====
-- What the program does not implement, as parameters: the clock, randomness, the hash functions,
-- the JWT and mail libraries, Redis, and whether a call to the outside fails. Calls are numbered:
-- `clock n` is what the n-th call returns if it reads the clock, `fault n` whether it fails.
use golang_restapi.Base.{ℕ, String, Bool, Option}
use golang_restapi.Base.Int.{ℤ}
use golang_restapi.Auth.Model.{Event}

-- A Redis key: a fixed prefix, and the text that follows it.
pub data Key : Type 0 where
  revoked_user revoked_session : ℕ → Key
  throttle : String → Key
  dedup : String → String → Key

-- The Redis commands that the program sends, on a server state of type S. Those that read or set
-- an expiry take the time of the call.
pub record KeyValue (S : Type 0) : Type 0 where
  -- SET key value with a TTL
  pub set : Key → String → ℤ → ℕ → S → S
  -- SET key value NX with a TTL: `none` is redis.Nil, the key exists
  pub set_nx : Key → String → ℤ → ℕ → S → Option S
  -- GET and one part of MGET
  pub get : Key → ℕ → S → Option String
  -- TTL
  pub ttl : Key → ℕ → S → ℤ
  -- DEL
  pub del : Key → S → S
  -- XADD stream * payload envelope
  pub xadd : String → Event → S → S

-- AccessTokenClaims of internal/auth/access_token.go: `subject` is the user id that sub spells,
-- `none` where it spells none; iat and exp may be missing.
pub record AccessTokenClaims : Type 0 where
  pub subject : Option ℕ
  pub session_id : ℕ
  pub role : String
  pub issued_at : Option ℕ
  pub expires_at : Option ℕ

-- What jwt.ParseWithClaims finds in a token that it does not refuse.
pub data Parsed : Type 0 where
  claims : AccessTokenClaims → Parsed
  expired refused : Parsed

pub record Env (S : Type 0) : Type 0 where
  pub clock : ℕ → ℕ
  pub fault : ℕ → Bool
  -- crypto/rand through base64: the call and how many bytes
  pub random_text : ℕ → ℕ → String
  pub uuid_v7 : ℕ → ℕ
  -- uuid.NewString
  pub uuid_text : ℕ → String
  -- the value of an identity column
  pub identity : ℕ → ℕ
  pub sha256 : String → ℕ
  -- GenerateFromPassword, which refuses a long password
  pub bcrypt_generate : ℕ → String → Option String
  -- CompareHashAndPassword, hash first
  pub bcrypt_matches : String → String → Bool
  -- mail.ParseAddress accepts
  pub parse_address : String → Bool
  -- jwt.NewNumericDate, which truncates to a second
  pub numeric_date : ℕ → ℕ
  pub sign_jwt : String → AccessTokenClaims → Option String
  pub parse_jwt : String → ℕ → String → Parsed
  -- strconv.FormatInt and ParseInt, base 10
  pub format_int : ℕ → String
  pub parse_int : String → Option ℤ
  -- strings.ToUpper
  pub to_upper : String → String
  pub kv : KeyValue S
