-- ===== src/Redis/Consumer/Duplicates.antt =====
-- Deliveries in internal/infrastructure/redis/stream_consumer.go that have the envelope id of a
-- message that was handled.
use golang_restapi.Base.{
  suc, ◌+◌, ◌≤◌, ◌<◌, String, false, none, some, ◌∷◌, ◌≡◌, ◌∙◌, arith, ◌⊎◌, inl, inr, Bool-cases,
  string_eq,
}
use golang_restapi.Base.Int.{pos_part}
use golang_restapi.World.Platform.{Env, Key, KeyValue}
use golang_restapi.World.Action.{ok}
use golang_restapi.Redis.Keys.{IsSameAt, KeyLaws, Traffic, Traffic-IsSameAt}
use golang_restapi.Redis.Consumer.{
  Envelope, Message, ConsumerStreamConfig, done, Streams, skipped, acked, Worker, dedup_key,
  dedup_ttl, decode_message, ack, claim, settle, process, handle_decoded, handle,
}

-- What the claims rely on Redis for, besides the laws of keys: XACK leaves every key as it is.
abbrev pub LeavesKeys : {S T : Type 0} → KeyValue S → Streams S T → Type 0
LeavesKeys {S} kv streams =
    (key : Key) (stream group id : String) (s : S)
    → IsSameAt kv key s (streams.xack stream group id s)

module _ {S T : Type 0} (env : Env S) (streams : Streams S T) (cfg : ConsumerStreamConfig) where
  -- the state after a message that was claimed and whose handler succeeded
  handled_redis :
      (m : Message) (e : Envelope T) (w : Worker S) (s : S)
      → decode_message streams m ≡ ok e
      → env.fault w.calls ≡ false
      → env.kv.set_nx (dedup_key cfg.stream e.id) "1" dedup_ttl (env.clock w.calls) w.redis ≡ some s
      → streams.handler (suc w.calls) e ≡ done
      → ((handle env streams cfg m w).redis ≡ s)
        ⊎ ((handle env streams cfg m w).redis ≡ streams.xack cfg.stream cfg.group m.id s)
  unfolding handle handle_decoded claim process settle ack
  handled_redis m e w s decoded up free succeeded =
      elim (Bool-cases (env.fault (suc (suc w.calls)))) [
        | inl f ↦ inl (ground (arith, decoded, up, free, succeeded, f))
        | inr f ↦ inr (ground (arith, decoded, up, free, succeeded, f))
      ]

  skips_held :
      (m : Message) (e : Envelope T) (w : Worker S)
      → decode_message streams m ≡ ok e
      → env.fault w.calls ≡ false
      → env.kv.set_nx (dedup_key cfg.stream e.id) "1" dedup_ttl (env.clock w.calls) w.redis ≡ none
      → ((handle env streams cfg m w).steps ≡ skipped e.id ∷ w.steps)
        ⊎ ((handle env streams cfg m w).steps ≡ acked m.id ∷ skipped e.id ∷ w.steps)
  unfolding handle handle_decoded claim ack
  skips_held m e w decoded up held = elim (Bool-cases (env.fault (suc w.calls))) [
    | inl f ↦ inl (ground (arith, decoded, up, held, f))
    | inr f ↦ inr (ground (arith, decoded, up, held, f))
  ]

  -- Where Redis obeys the laws of keys, and XACK leaves the keys alone: after a message was claimed
  -- and its handler succeeded, and after any calls that neither set nor delete its claim, such as
  -- those for messages with other envelope ids, a message with the same envelope id that comes
  -- within seven days is skipped, and its handler does not run, if Redis answers.
  pub handle-runs_once :
      (m m' : Message) (e e' : Envelope T) (w v : Worker S) (s : S)
      → KeyLaws env.kv
      → LeavesKeys env.kv streams
      → decode_message streams m ≡ ok e
      → env.fault w.calls ≡ false
      → env.kv.set_nx (dedup_key cfg.stream e.id) "1" dedup_ttl (env.clock w.calls) w.redis ≡ some s
      → streams.handler (suc w.calls) e ≡ done
      → Traffic env.kv (dedup_key cfg.stream e.id) (handle env streams cfg m w).redis v.redis
      → decode_message streams m' ≡ ok e'
      → e'.id ≡ e.id
      → env.fault v.calls ≡ false
      → env.clock w.calls ≤ env.clock v.calls
      → env.clock v.calls < env.clock w.calls + pos_part dedup_ttl
      → ((handle env streams cfg m' v).steps ≡ skipped e'.id ∷ v.steps)
        ⊎ ((handle env streams cfg m' v).steps ≡ acked m'.id ∷ skipped e'.id ∷ v.steps)
  handle-runs_once m m' e e' w v s laws leaves decoded up free succeeded since decoded' same_id up'
        after within =
      let key = dedup_key cfg.stream e.id in
      let claimed : env.kv.get key (env.clock v.calls) s ≡ some "1" =
        laws.kept_nx key "1" dedup_ttl (env.clock w.calls) (env.clock v.calls) w.redis s free after
          within in
      let kept : env.kv.get key (env.clock v.calls) (handle env streams cfg m w).redis ≡ some "1" =
        elim (handled_redis m e w s decoded up free succeeded) [
          | inl r ↦ rw r claimed
          | inr r ↦ rw r (leaves key cfg.stream cfg.group m.id s (env.clock v.calls) ∙ claimed)
        ] in
      let still : env.kv.get key (env.clock v.calls) v.redis ≡ some "1" =
        Traffic-IsSameAt env.kv key (handle env streams cfg m w).redis laws since
          (env.clock v.calls)
        ∙ kept in
      let refused : env.kv.set_nx (dedup_key cfg.stream e'.id) "1" dedup_ttl (env.clock v.calls)
            v.redis
          ≡ none =
        rw same_id (laws.held key "1" "1" dedup_ttl (env.clock v.calls) v.redis still) in
      skips_held m' e' v decoded' up' refused
