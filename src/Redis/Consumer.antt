-- ===== src/Redis/Consumer.antt =====
-- internal/infrastructure/redis/stream_consumer.go: how one message is handled, and the scan of
-- the pending entries. Log lines have no effect on the state. Messages are handled one after the
-- other here, where the code has a goroutine for each; the semaphore, which bounds how many run,
-- and Start, the loop that reads new messages, are left out.
pub mod Outcomes
pub mod Duplicates
pub mod Deliveries
pub mod Claims
use golang_restapi.Base.{
  ℕ, zero, suc, ◌*◌, String, Bool, true, false, ◌||◌, Option, none, some, List, [], ◌∷◌, ◌++◌, ◌==◌,
  string_eq, concat, if◌then◌else◌,
}
use golang_restapi.Base.Int.{ℤ, pos, at_least}
use golang_restapi.Errors.{Err, plain}
use golang_restapi.World.Platform.{Env, Key, dedup}
use golang_restapi.World.Action.{Result, ok, err}
use golang_restapi.Redis.Revocation.{second}

-- type Envelope of internal/ports/messaging/envelope.go
pub record Envelope (T : Type 0) : Type 0 where
  pub id : String
  pub timestamp : ℕ
  pub payload : T

-- redis.XMessage: an entry's id and its fields
pub record Message : Type 0 where
  pub id : String
  pub values : List (String × String)

pub record ConsumerStreamConfig : Type 0 where
  pub stream : String
  pub group : String
  pub consumer : String
  pub use_dlq : Bool
  pub max_retries : ℤ

-- What a call of the handler comes to.
pub data Handled : Type 0 where
  done : Handled
  failed : Err → Handled
  panicked : String → Handled

-- The stream commands of Redis on its state, json.Unmarshal, the handler, the text of an error and
-- of a time, and whether the context is over at a call.
pub record Streams (S T : Type 0) : Type 0 where
  -- XACK stream group id
  pub xack : String → String → String → S → S
  -- XADD stream * values
  pub xadd : String → List (String × String) → S → S
  -- XPENDING stream group id id 1: the entry's count of deliveries, `none` for no entry
  pub retry_count : String → String → String → S → Option ℤ
  -- XAUTOCLAIM from a cursor at a time: the messages, the next cursor, and the state
  pub xautoclaim : String → ℕ → S → List Message × String × S
  pub unmarshal : String → Result (Envelope T)
  -- the n-th call of outside code, if it is of the handler
  pub handler : ℕ → Envelope T → Handled
  pub error_text : Err → String
  pub rfc3339 : ℕ → String
  pub is_over : ℕ → Bool

-- What Redis and the handler have done for a message, with its id or its envelope's.
pub data Step : Type 0 where
  claimed skipped released : String → Step
  ran : String → Handled → Step
  dead_lettered acked : String → Step

-- `steps` lists what was done, the newest first.
pub record Worker (S : Type 0) : Type 0 where
  pub redis : S
  pub calls : ℕ
  pub steps : List Step

abbrev pub dedup_ttl : ℤ
dedup_ttl = pos (7 * 24 * 3600 * second)

abbrev pub dedup_key : String → String → Key
dedup_key stream id = dedup stream id

-- `m.Values[key]`, the first entry of a field
unfoldable pub field : String → List (String × String) → Option String
field key [] = none
field key ((k, v) ∷ values) = if k == key then some v else field key values

-- `values[key] = value`
unfoldable pub put_field : String → String → List (String × String) → List (String × String)
put_field key v [] = (key, v) ∷ []
put_field key v ((k, u) ∷ values) =
    if k == key then (k, v) ∷ values else (k, u) ∷ put_field key v values

abbrev decoded : {T : Type 0} → (String → Result (Envelope T)) → Option String → Result (Envelope T)
decoded unmarshal none = err (plain "missing payload")
decoded unmarshal (some raw) = unmarshal raw

-- decodeMessage
unfoldable pub decode_message : {S T : Type 0} → Streams S T → Message → Result (Envelope T)
unfolding field
decode_message streams m = decoded streams.unmarshal (field "payload" m.values)

module _ {S T : Type 0} (env : Env S) (streams : Streams S T) (cfg : ConsumerStreamConfig) where
  -- a command that Redis executes unless the call fails, and that is not repeated
  abbrev pub attempt : (ℕ → S → S) → Step → Worker S → Bool × Worker S
  attempt command step w =
      if env.fault w.calls then (false, record w { calls = suc w.calls }) else (
        true,
        record { redis = command w.calls w.redis; calls = suc w.calls; steps = step ∷ w.steps },
      )

  -- ack, whose error is only logged
  unfoldable pub ack : String → Worker S → Worker S
  ack id w = (attempt (λ n. streams.xack cfg.stream cfg.group id) (acked id) w).1

  -- the fields of an entry of the dead-letter stream
  unfoldable pub dead_letter : Message → String → String → ℕ → List (String × String)
  unfolding put_field
  dead_letter m reason message now = put_field "_failed_at" (streams.rfc3339 now) (
      put_field "_error" message
        (put_field "_reason" reason (put_field "_original_id" m.id m.values)))

  -- toDLQ: whether it returned nil; the clock is read with the call
  unfoldable pub to_dlq : Message → String → String → Worker S → Bool × Worker S
  unfolding dead_letter
  to_dlq m reason message w =
      if cfg.use_dlq
      then attempt
          (λ n.
            streams.xadd (concat cfg.stream ".dlq") (dead_letter m reason message (env.clock n)))
          (dead_lettered m.id) w
      else (true, w)

  -- `if dlqErr := c.toDLQ(…); dlqErr != nil { return }; c.ack(…)`
  unfoldable pub bury : Message → String → String → Worker S → Worker S
  unfolding to_dlq ack
  bury m reason message w =
      let (written, w') = to_dlq m reason message w in if written then ack m.id w' else w'

  -- deliveryCount
  unfoldable pub delivery_count : String → Worker S → ℤ × Worker S
  delivery_count id w =
      let w' = record w { calls = suc w.calls } in
      if env.fault w.calls
      then (pos 1, w')
      else elim (streams.retry_count cfg.stream cfg.group id w.redis) [
        | none ↦ (pos 1, w')
        | some n ↦ (n, w')
      ]

  -- SET NX: whether the key exists; a call that fails counts as one that sets it
  unfoldable pub claim : Envelope T → Worker S → Bool × Worker S
  claim e w =
      if env.fault w.calls
      then (false, record w { calls = suc w.calls })
      else elim (env.kv.set_nx (dedup_key cfg.stream e.id) "1" dedup_ttl (env.clock w.calls)
          w.redis) [
            | none ↦ (true, record w { calls = suc w.calls; steps = skipped e.id ∷ w.steps })
            | some s ↦
                (false, record { redis = s; calls = suc w.calls; steps = claimed e.id ∷ w.steps })
          ]

  -- DEL of the claim, whose error is only logged
  unfoldable pub release : Envelope T → Worker S → Worker S
  release e w = (attempt (λ n. env.kv.del (dedup_key cfg.stream e.id)) (released e.id) w).1

  -- after the handler returned an error
  unfoldable pub retry_or_bury : Message → Err → Worker S → Worker S
  unfolding delivery_count bury
  retry_or_bury m e w =
      let (deliveries, w') = delivery_count m.id w in
      if at_least deliveries cfg.max_retries
      then bury m "max_retries" (streams.error_text e) w'
      else w'

  -- after the handler returned, or in the deferred function after it panicked
  unfoldable pub settle : Message → Envelope T → Handled → Worker S → Worker S
  unfolding ack release retry_or_bury bury
  settle m e done w = ack m.id w
  settle m e (failed why) w = retry_or_bury m why (release e w)
  settle m e (panicked why) w =
      bury m "panic" (concat "panic handling message: " why) (if e.id == "" then w else release e w)

  -- the call of the handler, and what follows
  unfoldable pub process : Message → Envelope T → Worker S → Worker S
  unfolding settle
  process m e w =
      let outcome = streams.handler w.calls e in
      settle m e outcome (record w { calls = suc w.calls; steps = ran e.id outcome ∷ w.steps })

  unfoldable pub handle_decoded : Message → Envelope T → Worker S → Worker S
  unfolding claim process ack
  handle_decoded m e w =
      let (duplicate, w') = claim e w in if duplicate then ack m.id w' else process m e w'

  -- handle
  unfoldable pub handle : Message → Worker S → Worker S
  unfolding decode_message handle_decoded bury
  handle m w = elim (decode_message streams m) [
    | err e ↦ bury m "decode_error" (streams.error_text e) w
    | ok e ↦ handle_decoded m e w
  ]

  -- the messages of one reply, and whether the context was over before they were all started
  unfoldable pub handle_all : List Message → Worker S → Bool × Worker S
  unfolding handle
  handle_all [] w = (false, w)
  handle_all (m ∷ ms) w = if streams.is_over w.calls then (true, w) else handle_all ms (handle m w)

  abbrev pub is_last_cursor : String → Bool
  is_last_cursor next = next == "0-0" || next == "0"

  -- The loop of claimPending from a cursor; `none` where the fuel does not suffice.
  unfoldable pub claim_from : ℕ → String → Worker S → Option (Worker S)
  unfolding handle_all
  claim_from zero cursor w = none
  claim_from (suc fuel) cursor w =
      if env.fault w.calls
      then some (record w { calls = suc w.calls })
      else let (ms, next, s) = streams.xautoclaim cursor (env.clock w.calls) w.redis in
        let (stopped, w') = handle_all ms (record w { redis = s; calls = suc w.calls }) in
        let rest = claim_from fuel next w' in
        if stopped || is_last_cursor next then some w' else rest

  -- claimPending
  unfoldable pub claim_pending : ℕ → Worker S → Option (Worker S)
  unfolding claim_from
  claim_pending fuel w = claim_from fuel "0-0" w
