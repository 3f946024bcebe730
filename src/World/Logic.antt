-- ===== src/World/Logic.antt =====
-- How to reason about an action through its parts. The `-ok` lemmas invert a run that succeeds,
-- and hand what they find to the rest of a proof; `Keeps` is what holds of the tables whatever
-- the outcome.
use golang_restapi.Base.{
  Bool, true, false, Option, none, some, ◌≡◌, refl, sym, ◌∙◌, arith, String, if◌then◌else◌,
}
use golang_restapi.Errors.{Err}
use golang_restapi.World.Platform.{Env}
use golang_restapi.World.State.{Db, World}
use golang_restapi.World.Action.{
  ⊤, Result, ok, err, Action, pure, throw, ◌>>=◌, check, throw_if, or_throw, wrap_err, time_now,
  outside, ignore_err, get_db, put_db, get_redis, put_redis,
}

module _ {S A B : Type 0} where
  resume : (f : A → Action S B) → Result A × World S → Result B × World S
  resume f (ok a, w) = f a w
  resume f (err e, w) = (err e, w)

  resume-bind : (m : Action S A) (f : A → Action S B) (w : World S) → (m >>= f) w ≡ resume f (m w)
  unfolding ◌>>=◌ resume
  resume-bind m f w = ground arith

  -- A sequence that succeeds has a first part that succeeds, and a second that goes on from there.
  pub >>=-ok :
      (m : Action S A) (f : A → Action S B) {w : World S} {b : B} {w'' : World S} {C : Type 0}
      → (m >>= f) w ≡ (ok b, w'')
      → ((a : A) (w' : World S) → m w ≡ (ok a, w') → f a w' ≡ (ok b, w'') → C)
      → C
  unfolding resume
  >>=-ok m f {w} {b} {w''} {C} h k = go (m w) refl (sym (resume-bind m f w) ∙ h)
    where
      go : (r : Result A × World S) → m w ≡ r → resume f r ≡ (ok b, w'') → C
      go (ok a, w') e h' = k a w' e h'
      go (err e', w') e h' = absurd (cc)

  -- A sequence that fails, fails in its first part or in its second.
  pub >>=-err :
      (m : Action S A) (f : A → Action S B) {w : World S} {e : Err} {w'' : World S} {C : Type 0}
      → (m >>= f) w ≡ (err e, w'')
      → (m w ≡ (err e, w'') → C)
      → ((a : A) (w' : World S) → m w ≡ (ok a, w') → f a w' ≡ (err e, w'') → C)
      → C
  unfolding resume
  >>=-err m f {w} {e} {w''} {C} h k n = go (m w) refl (sym (resume-bind m f w) ∙ h)
    where
      go : (r : Result A × World S) → m w ≡ r → resume f r ≡ (err e, w'') → C
      go (ok a, w') e' h' = n a w' e' h'
      go (err x, w') e' h' = k (cc)

module _ {S A B : Type 0} where
  -- A property of every outcome of a sequence.
  pub >>=-outcomes :
      (Q : Result B × World S → Type 0) (m : Action S A) (f : A → Action S B) (w : World S)
      → ((a : A) (w' : World S) → m w ≡ (ok a, w') → Q (f a w'))
      → ((e : Err) (w' : World S) → m w ≡ (err e, w') → Q (err e, w'))
      → Q ((m >>= f) w)
  unfolding resume
  >>=-outcomes Q m f w k n = rw (resume-bind m f w) (go (m w) refl)
    where
      go : (r : Result A × World S) → m w ≡ r → Q (resume f r)
      go (ok a, w') e = k a w' e
      go (err x, w') e = n x w' e

module _ {S B : Type 0} where
  pub throw_if-ok :
      (c : Bool) (e : Err) (k : Action S B) {w : World S} {b : B} {w' : World S} {C : Type 0}
      → (throw_if c e >>= λ _. k) w ≡ (ok b, w')
      → (c ≡ false → k w ≡ (ok b, w') → C)
      → C
  unfolding ◌>>=◌
  throw_if-ok true e k h next = absurd (cc)
  throw_if-ok false e k h next = next refl h

  pub check-ok :
      (o : Option Err) (k : Action S B) {w : World S} {b : B} {w' : World S} {C : Type 0}
      → (check o >>= λ _. k) w ≡ (ok b, w')
      → (o ≡ none → k w ≡ (ok b, w') → C)
      → C
  unfolding ◌>>=◌
  check-ok none k h next = next refl h
  check-ok (some e) k h next = absurd (cc)

-- Whatever the outcome, P still holds of the tables; a result satisfies F.
pub record Keeps {S : Type 0} {A : Type 0} (P : Db → Type 0) (F : A → Type 0) (m : Action S A)
    : Type 0 where
  pub keeps : (w : World S) → P w.db → P (m w).1.db
  pub gives : (w : World S) (a : A) → P w.db → (m w).0 ≡ ok a → F a

abbrev pub Any : {A : Type 0} → A → Type 0
Any _ = Unit

module _ {S : Type 0} (P : Db → Type 0) where
  module _ {A B : Type 0} {F : A → Type 0} {G : B → Type 0} where
    resume-Keeps :
        (f : A → Action S B)
        → ((a : A) → F a → Keeps P G (f a))
        → (r : Result A × World S) → P r.1.db
        → ((a : A) → r.0 ≡ ok a → F a)
        → P (resume f r).1.db
    unfolding resume
    resume-Keeps f k (ok a, w) p q = (k a (q a refl)).keeps w p
    resume-Keeps f k (err e, w) p q = p

    resume-gives :
        (f : A → Action S B)
        → ((a : A) → F a → Keeps P G (f a))
        → (r : Result A × World S) (b : B) → P r.1.db
        → ((a : A) → r.0 ≡ ok a → F a)
        → (resume f r).0 ≡ ok b
        → G b
    unfolding resume
    resume-gives f k (ok a, w) b p q e = (k a (q a refl)).gives w b p e
    resume-gives f k (err e', w) b p q e = absurd (cc)

    pub Keeps-bind :
        {m : Action S A} {f : A → Action S B}
        → Keeps P F m
        → ((a : A) → F a → Keeps P G (f a))
        → Keeps P G (m >>= f)
    Keeps-bind {m} {f} km kf = record {
      keeps = λ w p.
          rw (resume-bind m f w) (resume-Keeps f kf (m w) (km.keeps w p) (λ a. km.gives w a p));
      gives = λ w b p e.
          resume-gives f kf (m w) b (km.keeps w p) (λ a. km.gives w a p)
            (rw (resume-bind m f w) at e);
    }

  module _ {A : Type 0} {F : A → Type 0} where
    pub Keeps-pure : (a : A) → F a → Keeps P F (pure {S = S} a)
    Keeps-pure a f = record { keeps = λ w p. p; gives = λ w b p e. ground arith }

    pub Keeps-wrap_err : (msg : String) {m : Action S A} → Keeps P F m → Keeps P F (wrap_err msg m)
    Keeps-wrap_err msg {m} km = record {
      keeps = λ w p. let h = km.keeps w p in ground arith;
      gives = λ w a p e. km.gives w a p (ground arith);
    }

  pub Keeps-throw_if : (c : Bool) (e : Err) → Keeps P (λ _. c ≡ false) (throw_if {S = S} c e)
  Keeps-throw_if true e = record { keeps = λ w p. p; gives = λ w b p h. absurd (cc) }
  Keeps-throw_if false e = record { keeps = λ w p. p; gives = λ w b p h. refl }

  pub Keeps-check : (o : Option Err) → Keeps P (λ _. o ≡ none) (check {S = S} o)
  Keeps-check none = record { keeps = λ w p. p; gives = λ w b p h. refl }
  Keeps-check (some e) = record { keeps = λ w p. p; gives = λ w b p h. absurd (cc) }

  pub Keeps-time_now : (env : Env S) → Keeps P Any (time_now env)
  Keeps-time_now env = record { keeps = λ w p. p; gives = λ w b p h. tt }

  pub Keeps-outside : (env : Env S) → Keeps P Any (outside env)
  Keeps-outside env = record { keeps = λ w p. p; gives = λ w b p h. tt }

  pub Keeps-get_redis : Keeps P Any (get_redis {S = S})
  Keeps-get_redis = record { keeps = λ w p. p; gives = λ w b p h. tt }

  pub Keeps-put_redis : (r : S) → Keeps P Any (put_redis r)
  Keeps-put_redis r = record { keeps = λ w p. p; gives = λ w b p h. tt }

  pub Keeps-ignore_err : {m : Action S ⊤} → Keeps P Any m → Keeps P Any (ignore_err m)
  Keeps-ignore_err km = record { keeps = λ w p. km.keeps w p; gives = λ w b p h. tt }

  module _ {A : Type 0} where
    pub Keeps-throw : (F : A → Type 0) (e : Err) → Keeps P F (throw {S = S} e)
    Keeps-throw F e = record { keeps = λ w p. p; gives = λ w b p h. absurd (cc) }

    pub Keeps-or_throw : (o : Option A) (e : Err) → Keeps P (λ a. o ≡ some a) (or_throw {S = S} o e)
    Keeps-or_throw none e = record { keeps = λ w p. p; gives = λ w b p h. absurd (cc) }
    Keeps-or_throw (some a) e = record { keeps = λ w p. p; gives = λ w b p h. ground arith }

    pub Keeps-weaken :
        {F G : A → Type 0} {m : Action S A} → Keeps P F m → ((a : A) → F a → G a) → Keeps P G m
    Keeps-weaken km k = record {
      keeps = λ w p. km.keeps w p;
      gives = λ w a p e. k a (km.gives w a p e);
    }

    pub Keeps-forget : {F : A → Type 0} {m : Action S A} → Keeps P F m → Keeps P Any m
    Keeps-forget km = record { keeps = λ w p. km.keeps w p; gives = λ w b p h. tt }

  pub Keeps-get_db : Keeps P P (get_db {S = S})
  Keeps-get_db = record {
    keeps = λ w p. p;
    gives = λ w b p h. let e : w.db ≡ b = cc h in rw e at p;
  }

  pub Keeps-put_db : (db : Db) → P db → Keeps P Any (put_db {S = S} db)
  Keeps-put_db db q = record { keeps = λ w p. q; gives = λ w b p h. tt }

  pub Keeps-if :
      {A : Type 0} {F : A → Type 0} (c : Bool) {m n : Action S A}
      → (c ≡ true → Keeps P F m)
      → (c ≡ false → Keeps P F n)
      → Keeps P F (if c then m else n)
  Keeps-if true km kn = km refl
  Keeps-if false km kn = kn refl
