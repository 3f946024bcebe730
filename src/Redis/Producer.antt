-- ===== src/Redis/Producer.antt =====
-- internal/infrastructure/redis/stream_producer.go and the producer of auth_events.go.
use golang_restapi.Base.{String}
use golang_restapi.Auth.Model.{Event, password_recovery, complete_registration}
use golang_restapi.World.Platform.{Env}
use golang_restapi.World.Action.{⊤, Action, ◌>>=◌, ◌>>◌, get_redis, put_redis, outside}

abbrev pub email_password_recovery_stream : String
email_password_recovery_stream = "email.password_recovery"

abbrev pub email_user_registration_stream : String
email_user_registration_stream = "email.user_registration"

abbrev pub stream_of : Event → String
stream_of (password_recovery _ _ _ _) = email_password_recovery_stream
stream_of (complete_registration _ _ _ _) = email_user_registration_stream

-- produceStream and the two methods of authEventProducer; an event can always be marshalled
unfoldable pub produce : {S : Type 0} (env : Env S) → Event → Action S ⊤
produce env e = do outside env; s ← get_redis; put_redis (env.kv.xadd (stream_of e) e s)
