-- ===== src/World/Runs.antt =====
-- Runs that succeed: what a sequence that starts with a call that only reads, or that fails
-- without a trace, hands to the rest of a proof.
use golang_restapi.Base.{
  ℕ, suc, Option, none, some, Bool, true, false, String, ◌≡◌, refl, ap, sym, ◌∙◌, arith,
}
use golang_restapi.Errors.{Err, wrap}
use golang_restapi.World.Platform.{Env}
use golang_restapi.World.State.{Db, World}
use golang_restapi.World.Action.{
  Result, ok, err, Action, ◌>>=◌, wrap_err, time_now, outside, pure, throw_if, or_throw,
}
use golang_restapi.World.Logic.{Keeps, >>=-ok, >>=-outcomes}

-- The action leaves the tables `d` as they are, and its result satisfies F of them.
abbrev pub Reads : {S A : Type 0} → (Db → A → Type 0) → Action S A → Type 0
Reads F m = (d : Db) → Keeps (λ db. db ≡ d) (F d) m

module _ {S A : Type 0} {F : Db → A → Type 0} where
  pub Reads-ok :
      (m : Action S A) (w : World S) {a : A} {w' : World S}
      → Reads F m
      → m w ≡ (ok a, w')
      → (w'.db ≡ w.db) × F w.db a
  Reads-ok m w {a} {w'} km e = (
    ap (λ (p : Result A × World S). p.1.db) (sym e) ∙ (km w.db).keeps w refl,
    (km w.db).gives w a refl (ap (λ (p : Result A × World S). p.0) e),
  )

  -- A sequence that begins with a read.
  pub >>=-read :
      {B : Type 0} (m : Action S A) (f : A → Action S B) (w : World S) {b : B} {w'' : World S}
      {C : Type 0}
      → Reads F m
      → (m >>= f) w ≡ (ok b, w'')
      → ((a : A) (w' : World S) → w'.db ≡ w.db → F w.db a → f a w' ≡ (ok b, w'') → C)
      → C
  >>=-read m f w km h k =
      >>=-ok m f h λ a w' e h'. let (same, fact) = Reads-ok m w km e in k a w' same fact h'

module _ {S A : Type 0} where
  pub wrap_err-ok :
      (msg : String) (m : Action S A) {w : World S} {a : A} {w' : World S}
      → wrap_err msg m w ≡ (ok a, w')
      → m w ≡ (ok a, w')
  wrap_err-ok msg m h = ground arith

  wrap_err-runs :
      (msg : String) (m : Action S A) (w : World S) {a : A} {w' : World S}
      → m w ≡ (ok a, w')
      → wrap_err msg m w ≡ (ok a, w')
  wrap_err-runs msg m w h = ground arith

  >>=-runs :
      {B : Type 0} (m : Action S A) (f : A → Action S B) (w : World S) {a : A} {w' : World S}
      {r : Result B × World S}
      → m w ≡ (ok a, w')
      → f a w' ≡ r
      → (m >>= f) w ≡ r
  unfolding ◌>>=◌
  >>=-runs m f w h k = ground arith

-- The action succeeds and changes nothing but the count of the calls.
abbrev pub Runs : {S A : Type 0} → Action S A → World S → Type 0
Runs {S} {A} m w = (a : A) × (n : ℕ) × (m w ≡ (ok a, record w { calls = n }))

module _ {S : Type 0} where
  pub pure-Runs : {A : Type 0} (a : A) (w : World S) → Runs (pure a) w
  pure-Runs a w = (a, w.calls, refl)

  pub throw_if-Runs : (c : Bool) (e : Err) (w : World S) → c ≡ false → Runs (throw_if c e) w
  throw_if-Runs true e w h = absurd (cc)
  throw_if-Runs false e w h = (tt, w.calls, refl)

  pub wrap_err-Runs :
      {A : Type 0} (msg : String) (m : Action S A) (w : World S)
      → Runs m w
      → Runs (wrap_err msg m) w
  wrap_err-Runs msg m w (a, n, h) = (a, n, wrap_err-runs msg m w h)

  pub >>=-Runs :
      {A B : Type 0} (m : Action S A) (f : A → Action S B) (w : World S)
      → Runs m w
      → ((a : A) (n : ℕ)
          → m w ≡ (ok a, record w { calls = n })
          → Runs (f a) (record w { calls = n }))
      → Runs (m >>= f) w
  >>=-Runs m f w (a, n, h) k = let (b, n', h') = k a n h in (b, n', >>=-runs m f w h h')

-- The action leaves the tables and the object storage alone, whether it succeeds or not.
abbrev pub Quiet : {S A : Type 0} → Action S A → Type 0
Quiet {S} m = (w : World S) → ((m w).1.db ≡ w.db) × ((m w).1.storage ≡ w.storage)

module _ {S : Type 0} where
  pub throw_if-Quiet : (c : Bool) (e : Err) → Quiet {S = S} (throw_if c e)
  throw_if-Quiet true e w = (refl, refl)
  throw_if-Quiet false e w = (refl, refl)

  pub wrap_err-Quiet :
      {A : Type 0} (msg : String) (m : Action S A) → Quiet m → Quiet (wrap_err msg m)
  wrap_err-Quiet {A} msg m q w =
      let (db, storage) = q w in
      let same : (wrap_err msg m w).1 ≡ (m w).1 = go (m w).0 (m w).1 in
      (ap (λ (v : World S). v.db) same ∙ db, ap (λ (v : World S). v.storage) same ∙ storage)
    where
      go :
          (r : Result A) (w' : World S)
          → (elim r as (λ _. Result A × World S) [
            | ok a ↦ (ok a, w')
            | err e ↦ (err (wrap msg e), w')
          ]).1
            ≡ w'
      go (ok a) w' = refl
      go (err e) w' = refl

  pub or_throw-Quiet : {A : Type 0} (o : Option A) (e : Err) → Quiet {S = S} (or_throw o e)
  or_throw-Quiet none e w = (refl, refl)
  or_throw-Quiet (some a) e w = (refl, refl)

  pub or_throw-ok :
      {A : Type 0} (o : Option A) (e : Err) (w : World S) {a : A} {w' : World S}
      → or_throw o e w ≡ (ok a, w')
      → o ≡ some a
  or_throw-ok none e w h = absurd (cc)
  or_throw-ok (some a) e w h = ground (arith, h)

  -- what a quiet action hands on
  pub Quiet-run :
      {A : Type 0} (m : Action S A) (w : World S) {r : Result A} {w' : World S}
      → Quiet m
      → m w ≡ (r, w')
      → (w'.db ≡ w.db) × (w'.storage ≡ w.storage)
  Quiet-run m w q h =
      let (db, storage) = q w in
      (sym (ap (λ r. r.1.db) h) ∙ db, sym (ap (λ r. r.1.storage) h) ∙ storage)

  pub >>=-Quiet :
      {A B : Type 0} (m : Action S A) (f : A → Action S B)
      → Quiet m
      → ((a : A) → Quiet (f a))
      → Quiet (m >>= f)
  >>=-Quiet m f qm qf w =
      >>=-outcomes (λ (_, w'). (w'.db ≡ w.db) × (w'.storage ≡ w.storage)) m f w
        (λ a w1 h.
          let (db, storage) = Quiet-run m w qm h in
          let (db', storage') = qf a w1 in (db' ∙ db, storage' ∙ storage))
        (λ e w1 h. Quiet-run m w qm h)

module _ {S : Type 0} (env : Env S) where
  -- What a call of the clock returns is a reading of it.
  pub time_now-Reads : Reads (λ _ now. (n : ℕ) × (now ≡ env.clock n)) (time_now env)
  time_now-Reads d = record { keeps = λ w p. p; gives = λ w a p e. (w.calls, ground arith) }

  -- A call that succeeds.
  pub outside-Runs : ((n : ℕ) → env.fault n ≡ false) → (w : World S) → Runs (outside env) w
  outside-Runs up w = (w.calls, suc w.calls, rw (up w.calls))

  pub outside-Quiet : Quiet (outside env)
  outside-Quiet w = (refl, refl)
