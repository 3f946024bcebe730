-- ===== src/Tests/Store.antt =====
-- A key-value store with expiry, for the examples: what was set last under a key stands first.
use golang_restapi.Base.{
  ℕ, zero, suc, ◌+◌, ◌-◌, String, Bool, true, false, ◌&&◌, Option, none, some, List, [], ◌∷◌, ◌==◌,
  nat_eq, string_eq, str_beq_iff, ltb, if◌then◌else◌, ◌≡◌, ◌≢◌, refl, ap, arith, concat, ◌<◌,
  Bool-cases, inl, inr,
}
use golang_restapi.Base.Int.{ℤ, pos, negsuc, pos_part}
use golang_restapi.World.Platform.{Key, KeyValue, revoked_user, revoked_session, throttle, dedup}
use golang_restapi.Redis.Keys.{KeyLaws}
use Prim.Native.String.{count}
use text.Mathlib.TextLemmas.{length-append}

abbrev pub Store : Type 0
Store = List (Key × String × ℕ)

same_key : Key → Key → Bool
same_key (revoked_user a) (revoked_user b) = a == b
same_key (revoked_session a) (revoked_session b) = a == b
same_key (throttle a) (throttle b) = a == b
same_key (dedup a s) (dedup b t) = a == b && s == t
same_key _ _ = false

same_text : (s : String) → s == s ≡ true
same_text s = (str_beq_iff s s).1 refl

same_key_refl : (k : Key) → same_key k k ≡ true
unfolding same_key
same_key_refl (revoked_user a) = ground arith
same_key_refl (revoked_session a) = ground arith
same_key_refl (throttle a) = ground (arith, same_text a)
same_key_refl (dedup a s) = ground (arith, same_text a, same_text s)

lookup : Key → ℕ → Store → Option String
unfolding same_key
lookup k now [] = none
lookup k now ((q, v, expiry) ∷ s) =
    if same_key q k then (if ltb now expiry then some v else none) else lookup k now s

put : Key → String → ℤ → ℕ → Store → Store
put k v ttl now s = (k, v, now + pos_part ttl) ∷ s

put_new : Key → String → ℤ → ℕ → Store → Option Store
unfolding lookup put
put_new k v ttl now s = elim (lookup k now s) [ none ↦ some (put k v ttl now s) | some _ ↦ none ]

remaining : Key → ℕ → Store → ℤ
unfolding same_key
remaining k now [] = negsuc 1
remaining k now ((q, v, expiry) ∷ s) =
    if same_key q k then pos (expiry - now) else remaining k now s

remove : Key → Store → Store
unfolding same_key
remove k [] = []
remove k ((q, v, expiry) ∷ s) =
    let rest = remove k s in if same_key q k then rest else (q, v, expiry) ∷ rest

unfoldable pub store : KeyValue Store
unfolding lookup put put_new remaining remove
store = record {
  set = put;
  set_nx = put_new;
  get = lookup;
  ttl = remaining;
  del = remove;
  xadd = λ stream e s. s;
}

same_key-eq : (a b : Key) → same_key a b ≡ true → a ≡ b
unfolding same_key
same_key-eq (revoked_user a) (revoked_user b) h = ground arith
same_key-eq (revoked_session a) (revoked_session b) h = ground arith
same_key-eq (throttle a) (throttle b) h = ap throttle ((str_beq_iff a b).0 h)
same_key-eq (dedup a s) (dedup b t) h =
    let first = (str_beq_iff a b).0 (ground (arith, h)) in
    let second = (str_beq_iff s t).0 (ground (arith, h)) in cc (first, second)
same_key-eq _ _ h = absurd (cc)

apart : (a b : Key) → a ≢ b → same_key a b ≡ false
apart a b n = elim (Bool-cases (same_key a b)) [
  | inl e ↦ absurd (n (same_key-eq a b e))
  | inr e ↦ e
]

lookup-put :
    (key other : Key) (v : String) (ttl : ℤ) (at now : ℕ) (s : Store)
    → other ≢ key
    → lookup key now (put other v ttl at s) ≡ lookup key now s
unfolding lookup put
lookup-put key other v ttl at now s n = rw (apart other key n) refl

lookup-remove :
    (key other : Key) (now : ℕ) (s : Store)
    → other ≢ key
    → lookup key now (remove other s) ≡ lookup key now s
unfolding lookup remove
lookup-remove key other now [] n = refl
lookup-remove key other now ((q, v, expiry) ∷ s) n =
    let rest = lookup-remove key other now s n in
    elim (Bool-cases (same_key q other)) [
      | inl e ↦
          let no = apart other key n in
          let is = same_key-eq q other e in ground (arith, e, rest, no, is)
      | inr e ↦ ground (arith, e, rest)
    ]

lookup-put_new :
    (key : Key) (v : String) (ttl : ℤ) (at : ℕ) (s s' : Store)
    → put_new key v ttl at s ≡ some s'
    → s' ≡ put key v ttl at s
unfolding put_new
lookup-put_new key v ttl at s s' h = ground arith

lookup_kept :
    (key : Key) (v : String) (ttl : ℤ) (set read : ℕ) (s : Store)
    → read < set + pos_part ttl
    → lookup key read (put key v ttl set s) ≡ some v
unfolding lookup put
lookup_kept key v ttl set read s within = ground (arith, same_key_refl key)

put_new_held :
    (key : Key) (v v' : String) (ttl : ℤ) (now : ℕ) (s : Store)
    → lookup key now s ≡ some v
    → put_new key v' ttl now s ≡ none
unfolding put_new
put_new_held key v v' ttl now s h = ground arith

pub store-KeyLaws : KeyLaws store
unfolding store put_new
store-KeyLaws = record {
  kept = λ key value ttl set read s after within. lookup_kept key value ttl set read s within;
  kept_nx = λ key value ttl set read s s' was after within.
      let is = lookup-put_new key value ttl set s s' was in
      rw is (lookup_kept key value ttl set read s within);
  held = put_new_held;
  set_apart = λ key other value ttl at s n now. lookup-put key other value ttl at now s n;
  set_nx_apart = λ key other value ttl at s s' n was now.
      let is = lookup-put_new other value ttl at s s' was in
      rw is (lookup-put key other value ttl at now s n);
  del_apart = λ key other s n now. lookup-remove key other now s n;
  xadd_apart = λ key stream e s now. refl;
}

-- A number in unary, one mark more than it counts.
abbrev pub unary : ℕ → String
unary zero = "1"
unary (suc n) = concat "1" (unary n)

abbrev pub parse_unary : String → Option ℤ
parse_unary s = some (pos (count s - 1))

count-unary : (n : ℕ) → count (unary n) ≡ suc n
count-unary zero = refl
count-unary (suc n) = omega (arith, length-append "1" (unary n), count-unary n)

pub parse-unary : (n : ℕ) → parse_unary (unary n) ≡ some (pos n)
parse-unary n = ground (arith, count-unary n)

pub unary-nonempty : (n : ℕ) → unary n ≢ ""
unary-nonempty n e = ground (arith, count-unary n, ap count e)
