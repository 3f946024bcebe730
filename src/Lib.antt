-- ===== src/Lib.antt =====
-- A verification library of golang-restapi: the core of a user and authentication backend in Go.
--
-- The program is a layered service. internal/auth/service.go holds the use cases of authentication:
-- registration by invitation, login, refresh tokens with rotation, logout and the revocation of
-- sessions, password change and recovery; internal/user/service.go those of users and their profile
-- pictures, internal/audit/service.go the search of the audit log. They check permissions with
-- internal/rbac, report errors with internal/apperr, and work on the ports that
-- internal/infrastructure/postgres (tables, transactions, audit log, generated queries) and
-- internal/infrastructure/redis (revocation markers, throttle keys, event streams) implement. In
-- internal/transport/http, a middleware turns an access token into the caller of a request, and an
-- error into a response. A worker consumes the event streams.
--
-- Which file models what:
--   Errors: internal/apperr (kinds, codes, errors.Is and errors.As over wrapped chains)
--   Nullable: pkg/nullable/nullable.go
--   Rbac: internal/rbac (Require is require, RequireSelfOr is require_self_or)
--   User: internal/user/user.go and gender.go (New is fresh_user and Auth.Service.Register.new_user)
--   User.Service: internal/user/service.go (GetUserByID is get_user, GetUserByEmail get_user_of_email,
--     UpdateUser change_user, DeleteUser remove_user; ListUser is Query.Users.list_user)
--   User.Outcomes: what its methods do
--   Auth.Model, Auth.Session, Auth.RegistrationToken, Auth.PasswordRecoveryToken, Auth.Crypto: the
--     files of internal/auth of those names; the constructors that draw random values and the
--     signing of access_token.go are in Auth.Crypto
--   Auth.AccessToken: VerifyAccessToken of internal/auth/access_token.go
--   Auth.Service and its children: internal/auth/service.go; a name in _tx is the function that the
--     method passes to Transact, CompleteRegistration is finish_registration, RevokeUserSessions is
--     revoke_all, GetRegistrationToken and GetPasswordRecoveryToken are lookup_registration_token
--     and lookup_password_recovery_token, ListPermission is permissions
--   World: the state of a request, the outside world as parameters, and actions, which thread the
--     state and return a value or an error
--   Postgres: internal/infrastructure/postgres (postgres.go, auth_repository.go, user_repository.go,
--     audit_repository.go), with the entity side of internal/audit
--   Redis: internal/infrastructure/redis (revocation.go, throttler.go, stream_producer.go and the
--     producer of auth_events.go); Redis.Keys: what they rely on Redis for
--   Redis.Consumer: internal/infrastructure/redis/stream_consumer.go (handle, its parts, and
--     claimPending; the deferred function after a panic is a case of settle)
--   Query and its children: internal/infrastructure/postgres/query_builder.go, the sorts and date
--     ranges of internal/ports/repository, the searches of internal/user/search.go and
--     internal/audit/model.go, and the List of either repository and service
--   Http.Authenticate: authenticatorMiddleware of internal/transport/http/middlewares.go
--   Http.Failures: ParseError of internal/transport/http/error.go
--   Http.Upload and its children: ParsedFile and ValidateFile of internal/transport/http/uploader.go;
--     the table of content types and what net/http detects are parameters
--   Http.Pictures: changeProfilePicture of internal/transport/http/user_handler.go, from the form to
--     the service
--   Paging: internal/ports/repository/pagination.go, and Paginate of
--     internal/infrastructure/postgres/query_builder.go
--   World.Logic, World.Runs, Postgres.Keeps, Postgres.Writes, Auth.Keeps: how to reason about them
--   Auth.Outcomes, Auth.Atomic, Auth.History: what requests do, one at a time and in any sequence
--   Tests: a concrete environment and key-value store, runs, and the theorems applied to them
--
-- How the code is modelled. A table of migrations/ is a list of rows, a statement is an operation on
-- the list with the unique constraints that the migrations declare; several rows where pgxscan wants
-- one are an error. A transaction runs on the tables and gives them back when it is rolled back or
-- its commit fails. Transactions are sequential: two requests do not interleave, and row locks
-- (FOR UPDATE) are not modelled. Calls to the outside are numbered: the record Env says what the n-th
-- one reads from the clock, whether it fails, and what the hash functions, the JWT library, the mail
-- parser and Redis answer; theorems state what they rely on of these as hypotheses. A time is the
-- number of nanoseconds since Go's zero time, a UUID and a SHA-256 sum are the numbers that their
-- bytes spell, and a Redis key is its prefix and its text. Durations and times are taken to stay in
-- the range of 64 bits; the product in Paginate is wrapped, as the code computes it. Loops are structural
-- recursion on a list, but for claimPending, which asks Redis for one batch of pending entries after
-- another: it has fuel, one for each round, and is stated to end. The calls of the object storage are
-- recorded, newest first, and so is what the stream consumer does with a message; the goroutine that
-- deletes an image is a call at the place where it is started, and messages are handled one after the
-- other.
--
-- Not modelled: HTTP routing and the other handlers, the parsing of multipart forms, the wording of JSON errors, the
-- loop that reads new stream messages and its semaphore, mail, the object storage itself, configuration
-- and process start, which are input and output or settings of libraries; log lines, the time that
-- DummyVerify spends, panics outside a message's handler, and the cancellation of contexts; foreign
-- keys, CHECK constraints and column lengths; how the database evaluates a generated query.
pub mod Base
pub mod Errors
pub mod Nullable
pub mod Rbac
pub mod User
pub mod Auth
pub mod World
pub mod Postgres
pub mod Redis
pub mod Paging
pub mod Tests
pub mod Http
pub mod Query
