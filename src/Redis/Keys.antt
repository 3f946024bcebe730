-- ===== src/Redis/Keys.antt =====
-- What the adapters of internal/infrastructure/redis rely on Redis for, as its documentation states
-- it, and the calls that other requests may make between two calls on one key.
use golang_restapi.Base.{ℕ, ◌+◌, ◌≤◌, ◌<◌, String, none, some, ◌≡◌, ◌≢◌, refl, ◌∙◌}
use golang_restapi.Base.Int.{ℤ, pos_part}
use golang_restapi.Auth.Model.{Event}
use golang_restapi.World.Platform.{Key, KeyValue}

module _ {S : Type 0} (kv : KeyValue S) where
  -- The same is read under a key at any time.
  abbrev pub IsSameAt : Key → S → S → Type 0
  IsSameAt key s s' = (now : ℕ) → kv.get key now s' ≡ kv.get key now s

  -- SET and SET NX store a value until its TTL is over, SET NX does nothing to a key that holds
  -- one, and a call on one key, or on a stream, leaves every other key alone.
  pub record KeyLaws : Type 0 where
    pub kept :
        (key : Key) (value : String) (ttl : ℤ) (set read : ℕ) (s : S)
        → set ≤ read
        → read < set + pos_part ttl
        → kv.get key read (kv.set key value ttl set s) ≡ some value
    pub kept_nx :
        (key : Key) (value : String) (ttl : ℤ) (set read : ℕ) (s s' : S)
        → kv.set_nx key value ttl set s ≡ some s'
        → set ≤ read
        → read < set + pos_part ttl
        → kv.get key read s' ≡ some value
    pub held :
        (key : Key) (value value' : String) (ttl : ℤ) (now : ℕ) (s : S)
        → kv.get key now s ≡ some value
        → kv.set_nx key value' ttl now s ≡ none
    pub set_apart :
        (key other : Key) (value : String) (ttl : ℤ) (now : ℕ) (s : S)
        → other ≢ key
        → IsSameAt key s (kv.set other value ttl now s)
    pub set_nx_apart :
        (key other : Key) (value : String) (ttl : ℤ) (now : ℕ) (s s' : S)
        → other ≢ key
        → kv.set_nx other value ttl now s ≡ some s'
        → IsSameAt key s s'
    pub del_apart : (key other : Key) (s : S) → other ≢ key → IsSameAt key s (kv.del other s)
    pub xadd_apart :
        (key : Key) (stream : String) (e : Event) (s : S) → IsSameAt key s (kv.xadd stream e s)

  -- What any number of calls makes of a state that neither set nor delete the key: calls on other
  -- keys, events that are produced, and other calls on streams, which leave the keys alone.
  pub data Traffic (key : Key) (start : S) : S → Type 0 where
    begin : Traffic key start start
    set :
        {s : S}
        → Traffic key start s
        → (other : Key) (value : String) (ttl : ℤ) (now : ℕ) → other ≢ key
        → Traffic key start (kv.set other value ttl now s)
    set_nx :
        {s s' : S}
        → Traffic key start s
        → (other : Key) (value : String) (ttl : ℤ) (now : ℕ) → other ≢ key
        → kv.set_nx other value ttl now s ≡ some s'
        → Traffic key start s'
    del :
        {s : S}
        → Traffic key start s
        → (other : Key) → other ≢ key
        → Traffic key start (kv.del other s)
    xadd :
        {s : S}
        → Traffic key start s
        → (stream : String) (e : Event) → Traffic key start (kv.xadd stream e s)
    on_stream : {s s' : S} → Traffic key start s → IsSameAt key s s' → Traffic key start s'

  -- The key reads after the calls as it did before.
  pub Traffic-IsSameAt :
      (key : Key) (start : S) → KeyLaws → {s : S} → Traffic key start s → IsSameAt key start s
  Traffic-IsSameAt key start laws begin now = refl
  Traffic-IsSameAt key start laws (set {s} t other value ttl at apart) now =
      laws.set_apart key other value ttl at s apart now ∙ Traffic-IsSameAt key start laws t now
  Traffic-IsSameAt key start laws (set_nx {s} {s'} t other value ttl at apart e) now =
      laws.set_nx_apart key other value ttl at s s' apart e now
      ∙ Traffic-IsSameAt key start laws t now
  Traffic-IsSameAt key start laws (del {s} t other apart) now =
      laws.del_apart key other s apart now ∙ Traffic-IsSameAt key start laws t now
  Traffic-IsSameAt key start laws (xadd {s} t stream e) now =
      laws.xadd_apart key stream e s now ∙ Traffic-IsSameAt key start laws t now
  Traffic-IsSameAt key start laws (on_stream t same) now =
      same now ∙ Traffic-IsSameAt key start laws t now
