-- ===== src/Redis/Consumer/Outcomes.antt =====
-- What the handling of one message in internal/infrastructure/redis/stream_consumer.go comes to.
use golang_restapi.Base.{
  suc, string_eq, ◌==◌, if◌then◌else◌, String, Bool, true, false, List, [], ◌∷◌, ◌++◌, ◌≡◌, refl,
  arith, ◌⊎◌, inl, inr, Bool-cases,
}
use golang_restapi.Base.Lists.{any}
use golang_restapi.Base.Int.{ℤ, at_least}
use golang_restapi.Errors.{Err}
use golang_restapi.World.Platform.{Env}
use golang_restapi.World.Action.{Result, ok, err}
use golang_restapi.Redis.Consumer.{
  Envelope, Message, ConsumerStreamConfig, Handled, done, failed, panicked, Streams, Step, claimed,
  skipped, released, ran, dead_lettered, acked, Worker, decode_message, ack, to_dlq, bury,
  delivery_count, claim, release, retry_or_bury, settle, process, handle_decoded, handle,
}

abbrev pub is_ack : Step → Bool
is_ack (acked _) = true
is_ack _ = false

-- `after` has steps that `before` has not, and none of them is an acknowledgement.
abbrev pub Unacked : List Step → List Step → Type 0
Unacked before after = (new : List Step) × (after ≡ new ++ before) × (any is_ack new ≡ false)

module _ {S T : Type 0} (env : Env S) (streams : Streams S T) (cfg : ConsumerStreamConfig) where
  -- What justifies that a message is acknowledged after these steps.
  abbrev pub Excused : Message → List Step → Type 0
  Excused m steps =
      (cfg.use_dlq ≡ false)
      ⊎ (((older : List Step) × (steps ≡ dead_lettered m.id ∷ older))
          ⊎ ((e : Envelope T) × (decode_message streams m ≡ ok e)
              × (older : List Step) × ((steps ≡ skipped e.id ∷ older)
                  ⊎ (steps ≡ ran e.id done ∷ older))))

  -- A message stays pending, or its acknowledgement is the last step and the steps before excuse it.
  abbrev pub IsAccounted : Message → List Step → List Step → Type 0
  IsAccounted m before after =
      Unacked before after
      ⊎ ((rest : List Step) × (after ≡ acked m.id ∷ rest) × Unacked before rest × Excused m rest)

  ack-steps :
      (id : String) (w : Worker S)
      → ((ack env streams cfg id w).steps ≡ w.steps)
        ⊎ ((ack env streams cfg id w).steps ≡ acked id ∷ w.steps)
  unfolding ack
  ack-steps id w = elim (Bool-cases (env.fault w.calls)) [
    | inl f ↦ inl (ground (arith, f))
    | inr f ↦ inr (ground (arith, f))
  ]

  ack-IsAccounted :
      (m : Message) (before : List Step) (w : Worker S)
      → Unacked before w.steps
      → Excused m w.steps
      → IsAccounted m before (ack env streams cfg m.id w).steps
  ack-IsAccounted m before w u excused = elim (ack-steps m.id w) [
    | inl e ↦ inl (rw e u)
    | inr e ↦ inr (w.steps, e, u, excused)
  ]

  more_steps :
      (before after after' : List Step) (s : Step)
      → Unacked before after
      → after' ≡ s ∷ after
      → is_ack s ≡ false
      → Unacked before after'
  more_steps before after after' s (new, e, none_acked) e' h =
      (s ∷ new, cc (e, e'), ground (arith, none_acked, h))

  bury-IsAccounted :
      (m : Message) (reason message : String) (before : List Step) (w : Worker S)
      → Unacked before w.steps
      → IsAccounted m before (bury env streams cfg m reason message w).steps
  unfolding bury to_dlq
  bury-IsAccounted m reason message before w u = go (to_dlq env streams cfg m reason message w) refl
    where
      go :
          (r : Bool × Worker S)
          → to_dlq env streams cfg m reason message w ≡ r
          → IsAccounted m before (if r.0 then ack env streams cfg m.id r.1 else r.1).steps
      go (false, w') h = inl (let e : w'.steps ≡ w.steps = ground (arith, h) in rw e u)
      go (true, w') h = elim (Bool-cases cfg.use_dlq) [
        | inl on ↦
            let e : w'.steps ≡ dead_lettered m.id ∷ w.steps = ground (arith, h, on) in
            ack-IsAccounted m before w'
              (more_steps before w.steps w'.steps (dead_lettered m.id) u e refl)
              (inr (inl (w.steps, e)))
        | inr off ↦
            let e : w'.steps ≡ w.steps = ground (arith, h, off) in
            ack-IsAccounted m before w' (rw e u) (inl off)
      ]

  release-Unacked :
      (e : Envelope T) (before : List Step) (w : Worker S)
      → Unacked before w.steps
      → Unacked before (release env streams cfg e w).steps
  unfolding release
  release-Unacked e before w u = elim (Bool-cases (env.fault w.calls)) [
    | inl f ↦
        let same : (release env streams cfg e w).steps ≡ w.steps = ground (arith, f) in rw same u
    | inr f ↦ more_steps before w.steps _ (released e.id) u (ground (arith, f)) refl
  ]

  retry-IsAccounted :
      (m : Message) (why : Err) (before : List Step) (w : Worker S)
      → Unacked before w.steps
      → IsAccounted m before (retry_or_bury env streams cfg m why w).steps
  unfolding retry_or_bury delivery_count
  retry-IsAccounted m why before w u = go (delivery_count env streams cfg m.id w) refl
    where
      same : {r : ℤ × Worker S} → delivery_count env streams cfg m.id w ≡ r → r.1.steps ≡ w.steps
      same h = ground arith

      go :
          (r : ℤ × Worker S)
          → delivery_count env streams cfg m.id w ≡ r
          → IsAccounted m before
              (if at_least r.0 cfg.max_retries
                then bury env streams cfg m "max_retries" (streams.error_text why) r.1
                else r.1).steps
      go (n, w') h =
          elim (at_least n cfg.max_retries)
            as (λ b.
              IsAccounted m before
                (if b
                  then bury env streams cfg m "max_retries" (streams.error_text why) w'
                  else w').steps) [
                    | true ↦ bury-IsAccounted m _ _ before w' (rw (same h) u)
                    | false ↦ inl (rw (same h) u)
                  ]

  settle-IsAccounted :
      (m : Message) (e : Envelope T) (outcome : Handled) (before older : List Step) (w : Worker S)
      → decode_message streams m ≡ ok e
      → Unacked before w.steps
      → w.steps ≡ ran e.id outcome ∷ older
      → IsAccounted m before (settle env streams cfg m e outcome w).steps
  unfolding settle
  settle-IsAccounted m e done before older w d u last =
      ack-IsAccounted m before w u (inr (inr (e, d, older, inr last)))
  settle-IsAccounted m e (failed why) before older w d u last =
      retry-IsAccounted m why before _ (release-Unacked e before w u)
  settle-IsAccounted m e (panicked why) before older w d u last =
      bury-IsAccounted m _ _ before _
        (elim (e.id == "")
          as (λ b. Unacked before (if b then w else release env streams cfg e w).steps) [
            | true ↦ u
            | false ↦ release-Unacked e before w u
          ])

  decoded-IsAccounted :
      (m : Message) (e : Envelope T) (w : Worker S)
      → decode_message streams m ≡ ok e
      → IsAccounted m w.steps (handle_decoded env streams cfg m e w).steps
  unfolding handle_decoded process claim
  decoded-IsAccounted m e w d = go (claim env streams cfg e w) refl
    where
      skips :
          {w' : Worker S}
          → claim env streams cfg e w ≡ (true, w')
          → w'.steps ≡ skipped e.id ∷ w.steps
      skips h = ground arith

      claims :
          {w' : Worker S}
          → claim env streams cfg e w ≡ (false, w')
          → (w'.steps ≡ w.steps) ⊎ (w'.steps ≡ claimed e.id ∷ w.steps)
      claims h = ground arith

      fresh : {w' : Worker S} → claim env streams cfg e w ≡ (false, w') → Unacked w.steps w'.steps
      fresh {w'} h = elim (claims h) [
        | inl s ↦ ([], s, refl)
        | inr s ↦ (claimed e.id ∷ [], s, refl)
      ]

      go :
          (r : Bool × Worker S)
          → claim env streams cfg e w ≡ r
          → IsAccounted m w.steps
              (if r.0 then ack env streams cfg m.id r.1 else process env streams cfg m e r.1).steps
      go (true, w') h =
          ack-IsAccounted m w.steps w' (skipped e.id ∷ [], skips h, refl)
            (inr (inr (e, d, w.steps, inl (skips h))))
      go (false, w') h =
          let outcome = streams.handler w'.calls e in
          settle-IsAccounted m e outcome w.steps w'.steps
            (record w' { calls = suc w'.calls; steps = ran e.id outcome ∷ w'.steps }) d
            (more_steps w.steps w'.steps _ (ran e.id outcome) (fresh h) refl refl) refl

  -- A message is acknowledged only for a reason, which the step right before shows: it was written
  -- to the dead-letter stream, its handler succeeded, or the claim on its envelope's id existed;
  -- or the configuration has no dead-letter stream. It is acknowledged at most once, as the last
  -- step, and in every other case it stays pending.
  pub handle-accounts :
      (m : Message) (w : Worker S) → IsAccounted m w.steps (handle env streams cfg m w).steps
  unfolding handle
  handle-accounts m w = go (decode_message streams m) refl
    where
      go :
          (r : Result (Envelope T))
          → decode_message streams m ≡ r
          → IsAccounted m w.steps
              (elim r as (λ _. Worker S) [
                | err e ↦ bury env streams cfg m "decode_error" (streams.error_text e) w
                | ok e ↦ handle_decoded env streams cfg m e w
              ]).steps
      go (ok e) h = decoded-IsAccounted m e w h
      go (err e) h = bury-IsAccounted m _ _ w.steps w ([], refl, refl)
