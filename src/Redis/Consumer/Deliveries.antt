-- ===== src/Redis/Consumer/Deliveries.antt =====
-- The last delivery of a message that internal/infrastructure/redis/stream_consumer.go allows.
use golang_restapi.Base.{
  ℕ, String, Bool, true, false, some, List, ◌∷◌, ◌≡◌, refl, arith, inl, inr, Option-cases,
  if◌then◌else◌, string_eq,
}
use golang_restapi.Base.Int.{ℤ, at_least}
use golang_restapi.Errors.{Err}
use golang_restapi.World.Platform.{Env, Key}
use golang_restapi.World.Action.{Result, ok, err}
use golang_restapi.Redis.Consumer.{
  Envelope, Message, ConsumerStreamConfig, Handled, done, failed, panicked, Streams, Step, acked,
  Worker, dedup_key, dedup_ttl, decode_message, ack, to_dlq, bury, delivery_count, claim, release,
  retry_or_bury, settle, process, handle_decoded, handle,
}

module _ {S T : Type 0} (env : Env S) (streams : Streams S T) (cfg : ConsumerStreamConfig) where
  -- the pending entry's count, whatever happens to keys
  abbrev pub IsCounted : Message → ℤ → S → Type 0
  IsCounted m n s =
      (streams.retry_count cfg.stream cfg.group m.id s ≡ some n)
      × ((key : Key) (value : String) (ttl : ℤ) (now : ℕ) (s' s'' : S)
          → env.kv.set_nx key value ttl now s' ≡ some s''
          → streams.retry_count cfg.stream cfg.group m.id s' ≡ some n
          → streams.retry_count cfg.stream cfg.group m.id s'' ≡ some n)
      × ((key : Key) (s' : S)
          → streams.retry_count cfg.stream cfg.group m.id s' ≡ some n
          → streams.retry_count cfg.stream cfg.group m.id (env.kv.del key s') ≡ some n)

  abbrev pub IsAcked : Message → Worker S → Type 0
  IsAcked m w = (older : List Step) × (w.steps ≡ acked m.id ∷ older)

  module _ (up : (n : ℕ) → env.fault n ≡ false) (m : Message) where
    ack-acks : (w : Worker S) → IsAcked m (ack env streams cfg m.id w)
    unfolding ack
    ack-acks w = (w.steps, ground (arith, up w.calls))

    bury-acks :
        (reason message : String) (w : Worker S)
        → IsAcked m (bury env streams cfg m reason message w)
    unfolding bury to_dlq
    bury-acks reason message w = go (to_dlq env streams cfg m reason message w) refl
      where
        go :
            (r : Bool × Worker S)
            → to_dlq env streams cfg m reason message w ≡ r
            → IsAcked m (if r.0 then ack env streams cfg m.id r.1 else r.1)
        go (true, w') h = ack-acks w'
        go (false, w') h = absurd (ground (arith, h, up w.calls))

    retry-acks :
        (why : Err) (n : ℤ) (w : Worker S)
        → streams.retry_count cfg.stream cfg.group m.id w.redis ≡ some n
        → at_least n cfg.max_retries ≡ true
        → IsAcked m (retry_or_bury env streams cfg m why w)
    unfolding retry_or_bury delivery_count
    retry-acks why n w counted last = go (delivery_count env streams cfg m.id w) refl
      where
        go :
            (r : ℤ × Worker S)
            → delivery_count env streams cfg m.id w ≡ r
            → IsAcked m (
                if at_least r.0 cfg.max_retries
                then bury env streams cfg m "max_retries" (streams.error_text why) r.1
                else r.1)
        go (n', w') h =
            let same : n' ≡ n = ground (arith, h, up w.calls, counted) in
            rw (same, last) (bury-acks "max_retries" (streams.error_text why) w')

    settle-acks :
        (e : Envelope T) (outcome : Handled) (n : ℤ) (w : Worker S)
        → IsCounted m n w.redis
        → at_least n cfg.max_retries ≡ true
        → IsAcked m (settle env streams cfg m e outcome w)
    unfolding settle release
    settle-acks e done n w counted last = ack-acks w
    settle-acks e (failed why) n w (counted, _, kept) last =
        let freed : (release env streams cfg e w).redis
            ≡ env.kv.del (dedup_key cfg.stream e.id) w.redis =
          ground (arith, up w.calls) in
        retry-acks why n (release env streams cfg e w)
          (rw freed (kept (dedup_key cfg.stream e.id) w.redis counted)) last
    settle-acks e (panicked why) n w counted last = bury-acks _ _ _

  -- Where Redis answers every call, and counts the deliveries of a message whatever happens to the
  -- keys: when a message has been delivered as often as the configuration allows, it is
  -- acknowledged and leaves the pending entries, whatever its handler does, a panic included.
  pub last_delivery-acks :
      (m : Message) (n : ℤ) (w : Worker S)
      → ((k : ℕ) → env.fault k ≡ false)
      → IsCounted m n w.redis
      → at_least n cfg.max_retries ≡ true
      → IsAcked m (handle env streams cfg m w)
  unfolding handle handle_decoded process claim
  last_delivery-acks m n w up (counted, sets, kept) last = go (decode_message streams m) refl
    where
      process-acks :
          (e : Envelope T) (w' : Worker S)
          → streams.retry_count cfg.stream cfg.group m.id w'.redis ≡ some n
          → IsAcked m (process env streams cfg m e w')
      process-acks e w' c = settle-acks up m e (streams.handler w'.calls e) n _ (c, sets, kept) last

      claimed-acks :
          (e : Envelope T) (r : Bool × Worker S)
          → claim env streams cfg e w ≡ r
          → IsAcked m
              (if r.0 then ack env streams cfg m.id r.1 else process env streams cfg m e r.1)
      claimed-acks e (true, w') h = ack-acks up m w'
      claimed-acks e (false, w') h =
          process-acks e w'
            (elim (Option-cases (
              env.kv.set_nx (dedup_key cfg.stream e.id) "1" dedup_ttl (env.clock w.calls)
                w.redis)) [
                  | inl held ↦ absurd (ground (arith, h, up w.calls, held))
                  | inr (s, free) ↦
                      let there : s ≡ w'.redis = ground (arith, h, up w.calls, free) in
                      rw (← there) (
                        sets (dedup_key cfg.stream e.id) "1" dedup_ttl (env.clock w.calls) w.redis s
                          free counted)
                ])

      go :
          (r : Result (Envelope T))
          → decode_message streams m ≡ r
          → IsAcked m (elim r as (λ _. Worker S) [
            | err e ↦ bury env streams cfg m "decode_error" (streams.error_text e) w
            | ok e ↦ handle_decoded env streams cfg m e w
          ])
      go (ok e) h = claimed-acks e (claim env streams cfg e w) refl
      go (err e) h = bury-acks up m _ _ w
