-- ===== src/Redis/Consumer/Claims.antt =====
-- claimPending of internal/infrastructure/redis/stream_consumer.go: the scan of the pending
-- entries ends.
use golang_restapi.Base.{
  ◌≤◌, ◌+◌, ℕ, zero, suc, ◌<◌, String, Bool, true, false, ◌||◌, Option, some, ◌≡◌, refl, arith, ◌⊎◌,
  inl, inr, if◌then◌else◌,
}
use golang_restapi.World.Platform.{Env}
use golang_restapi.Redis.Consumer.{
  ConsumerStreamConfig, Streams, Worker, handle_all, is_last_cursor, claim_from, claim_pending,
}

module _ {S T : Type 0} (env : Env S) (streams : Streams S T) (cfg : ConsumerStreamConfig) where
  -- What the scan relies on Redis for: `id` orders the entries, none pending lies beyond `last`, and
  -- a reply's cursor is the id of a pending entry after those that were scanned, or 0-0 if all
  -- were.
  abbrev pub IsScan : (String → ℕ) → ℕ → Type 0
  IsScan id last =
      (cursor : String) (now : ℕ) (s : S)
      → ((streams.xautoclaim cursor now s).1 ≡ "0-0")
        ⊎ ((id cursor < id (streams.xautoclaim cursor now s).1)
            × (id (streams.xautoclaim cursor now s).1 ≤ last))

  branch-ends :
      (stop : Bool) (w : Worker S) (rest : Option (Worker S))
      → (stop ≡ false → (w' : Worker S) × (rest ≡ some w'))
      → (w' : Worker S) × ((if stop then some w else rest) ≡ some w')
  branch-ends true w rest k = (w, refl)
  branch-ends false w rest k = k refl

  or_false : (a b : Bool) → a || b ≡ false → b ≡ false
  or_false a b h = ground arith

  claim_from-ends :
      (id : String → ℕ) (last : ℕ)
      → IsScan id last
      → (fuel : ℕ) (cursor : String) (w : Worker S) → last < id cursor + fuel
      → 0 < fuel
      → (w' : Worker S) × (claim_from env streams cfg fuel cursor w ≡ some w')
  unfolding claim_from
  claim_from-ends id last scan zero cursor w h some_fuel = absurd (ground arith)
  claim_from-ends id last scan (suc fuel) cursor w h some_fuel =
      branch-ends (env.fault w.calls) (record w { calls = suc w.calls }) _
        λ _.
          let (ms, next, s) = streams.xautoclaim cursor (env.clock w.calls) w.redis in
          let (stopped, w') =
            handle_all env streams cfg ms (record w { redis = s; calls = suc w.calls }) in
          branch-ends (stopped || is_last_cursor env streams cfg next) w'
            (claim_from env streams cfg fuel next w')
            λ goes_on. elim (scan cursor (env.clock w.calls) w.redis) [
              | inl over ↦
                  let ended : is_last_cursor env streams cfg next ≡ true = rw over refl in
                  absurd (cc (or_false stopped _ goes_on, ended))
              | inr (later, known) ↦
                  claim_from-ends id last scan fuel next w' (ground (arith, later, h))
                    (ground (arith, later, known, h))
            ]

  -- Where XAUTOCLAIM replies, from any cursor, with the id of a later pending entry or, at the end,
  -- with 0-0, and no pending entry lies beyond `last`, the scan of the pending entries ends,
  -- whatever the handler does and whether calls fail: `last` rounds, and one, suffice.
  pub claim_pending-ends :
      (id : String → ℕ) (last : ℕ) (w : Worker S)
      → IsScan id last
      → (w' : Worker S) × (claim_pending env streams cfg (suc last) w ≡ some w')
  unfolding claim_pending
  claim_pending-ends id last w scan =
      claim_from-ends id last scan (suc last) "0-0" w (ground arith) (ground arith)
