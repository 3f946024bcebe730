-- ===== src/Tests/Consumer.antt =====
-- Deliveries of one message to a consumer of the concrete key-value store.
use golang_restapi.Base.{
  ℕ, ◌<◌, ◌≤◌, Bool-cases, ◌⊎◌, inl, inr, if◌then◌else◌, String, true, false, some, [], ◌∷◌, ◌≡◌,
  refl, ◌⊎◌, inl, arith, ◌+◌,
}
use golang_restapi.Base.Int.{pos, pos_part}
use golang_restapi.Errors.{plain}
use golang_restapi.World.Action.{ok}
use golang_restapi.Redis.Consumer.{
  Envelope, Message, ConsumerStreamConfig, Handled, done, failed, Streams, skipped, acked, Worker,
  dedup_key, dedup_ttl, decode_message, field, handle, claim_pending,
}
use golang_restapi.Redis.Consumer.Outcomes.{IsAccounted, handle-accounts}
use golang_restapi.Redis.Consumer.Duplicates.{handle-runs_once}
use golang_restapi.Redis.Consumer.Deliveries.{IsAcked, last_delivery-acks}
use golang_restapi.Redis.Consumer.Claims.{claim_pending-ends}
use golang_restapi.Redis.Keys.{Traffic, begin, set}
use golang_restapi.World.Platform.{Key, dedup}
use golang_restapi.Base.{String, ap, ◌==◌, string_eq, str_beq_iff, true}
use golang_restapi.Tests.Store.{Store, store, store-KeyLaws}
use golang_restapi.Tests.Fixture.{platform}

abbrev streams : Handled → Streams Store String
streams outcome = record {
  xack = λ stream group id s. s;
  xadd = λ stream values s. s;
  retry_count = λ stream group id s. some (pos 3);
  xautoclaim = λ cursor now s. ([], "0-0", s);
  unmarshal = λ raw. ok (record { id = raw; timestamp = 0; payload = "text" });
  handler = λ n e. outcome;
  error_text = λ e. "error";
  rfc3339 = λ t. "time";
  is_over = λ n. false;
}

abbrev cfg : ConsumerStreamConfig
cfg = record {
  stream = "email";
  group = "mailing";
  consumer = "c1m";
  use_dlq = true;
  max_retries = pos 3;
}

abbrev message : Message
message = record { id = "1-0"; values = ("payload", "e1") ∷ [] }

abbrev envelope : Envelope String
envelope = record { id = "e1"; timestamp = 0; payload = "text" }

abbrev idle : Worker Store
idle = record { redis = []; calls = 0; steps = [] }

abbrev served : Worker Store
served = handle platform (streams done) cfg message idle

decodes : decode_message (streams done) message ≡ ok envelope
unfolding decode_message field
decodes = refl

handle-accounts_example : IsAccounted platform (streams done) cfg message [] served.steps
handle-accounts_example = handle-accounts platform (streams done) cfg message idle

abbrev held : Store
held = (dedup_key "email" "e1", "1", platform.clock 0 + pos_part dedup_ttl) ∷ []

claim_is_free :
    platform.kv.set_nx (dedup_key "email" "e1") "1" dedup_ttl (platform.clock 0) [] ≡ some held
unfolding store
claim_is_free = refl

id_of : Key → String
id_of (dedup stream id) = id
id_of _ = ""

-- the second delivery, ten calls later and after another message was claimed
abbrev later : Worker Store
later = record {
  redis = store.set (dedup_key "email" "e2") "1" dedup_ttl 5 served.redis;
  calls = 10;
  steps = [];
}

since : Traffic store (dedup_key "email" "e1") served.redis later.redis
unfolding id_of
since =
    set begin (dedup_key "email" "e2") "1" dedup_ttl 5
      λ e. absurd (cc ((str_beq_iff "e2" "e1").1 (ap id_of e)))

handle-runs_once_example :
    ((handle platform (streams done) cfg message later).steps ≡ skipped "e1" ∷ [])
    ⊎ ((handle platform (streams done) cfg message later).steps ≡ acked "1-0" ∷ skipped "e1" ∷ [])
handle-runs_once_example =
    handle-runs_once platform (streams done) cfg message message envelope envelope idle later held
      store-KeyLaws (λ key stream group id s now. refl) decodes refl claim_is_free refl since
      decodes refl refl (ground arith) (ground arith)

last_delivery-acks_example :
    IsAcked platform
      (streams (failed (plain "smtp")))
      cfg
      message
      (handle platform (streams (failed (plain "smtp"))) cfg message idle)
last_delivery-acks_example =
    last_delivery-acks platform (streams (failed (plain "smtp"))) cfg message (pos 3) idle
      (λ k. refl) (refl, (λ key value ttl now s s' set counted. refl), (λ key s counted. refl)) refl

-- two pending entries, claimed one at a time
abbrev scanning : Streams Store String
scanning = record (streams done) {
  xautoclaim = λ cursor now s.
      if cursor == "0-0" then (message ∷ [], "5-0", s) else (message ∷ [], "0-0", s);
}

abbrev position : String → ℕ
position cursor = if cursor == "5-0" then 5 else 0

scans :
    (cursor : String) (now : ℕ) (s : Store)
    → ((scanning.xautoclaim cursor now s).1 ≡ "0-0")
      ⊎ ((position cursor < position (scanning.xautoclaim cursor now s).1)
          × (position (scanning.xautoclaim cursor now s).1 ≤ 5))
scans cursor now s = elim (Bool-cases (cursor == "0-0")) [
  | inl first ↦ inr (rw ((str_beq_iff cursor "0-0").0 first) (ground arith, ground arith))
  | inr later ↦ inl (rw later refl)
]

claim_pending-ends_example :
    (w : Worker Store) × (claim_pending platform scanning cfg 6 idle ≡ some w)
claim_pending-ends_example = claim_pending-ends platform scanning cfg position 5 idle scans
