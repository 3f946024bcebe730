-- ===== src/Postgres/Rows/Laws.antt =====
-- What a query that returned one row says of it.
use mathlib.Core.Path.{subst}
use golang_restapi.Base.{
  Bool, true, false, List, [], ◌∷◌, ◌≡◌, refl, ap, arith, ◌⊎◌, inl, inr, if◌then◌else◌,
}
use golang_restapi.Base.Lists.{All, any}
use golang_restapi.Postgres.Rows.{Row, missing, one, several, more, get_one}

-- The row is the one at the head, which passed the test, or it comes later.
more-eq-one :
    {A : Type 0} (q r : A) (b : Bool) (m : Row A)
    → (if b then more q m else m) ≡ one r
    → ((b ≡ true) × (q ≡ r)) ⊎ (m ≡ one r)
more-eq-one q r true missing h = inl (refl, cc)
more-eq-one q r true (one x) h = absurd (cc)
more-eq-one q r true several h = absurd (cc)
more-eq-one q r false m h = inr h

module _ {A : Type 0} (test : A → Bool) where
  -- The row passes the query's test.
  pub get_one-test : (rows : List A) (r : A) → get_one test rows ≡ one r → test r ≡ true
  unfolding get_one
  get_one-test [] r e = absurd (cc)
  get_one-test (q ∷ rows) r e = elim (more-eq-one q r (test q) (get_one test rows) e) [
    | inl (h, p) ↦ subst (λ x. test x ≡ true) p h
    | inr h ↦ get_one-test rows r h
  ]

  -- What holds of every row holds of it.
  pub get_one-All :
      (P : A → Type 0) (rows : List A) (r : A) → All P rows → get_one test rows ≡ one r → P r
  unfolding get_one
  get_one-All P [] r h e = absurd (cc)
  get_one-All P (q ∷ rows) r h e = elim (more-eq-one q r (test q) (get_one test rows) e) [
    | inl (_, p) ↦ subst P p h.0
    | inr later ↦ get_one-All P rows r h.1 later
  ]

module _ {A : Type 0} (test : A → Bool) where
  -- It is one of the rows.
  pub get_one-any :
      (p : A → Bool) (rows : List A) (r : A)
      → get_one test rows ≡ one r
      → p r ≡ true
      → any p rows ≡ true
  unfolding get_one
  get_one-any p [] r e h = absurd (cc)
  get_one-any p (q ∷ rows) r e h = elim (more-eq-one q r (test q) (get_one test rows) e) [
    | inl (_, same) ↦ ground (arith, ap p same)
    | inr later ↦ ground (arith, get_one-any p rows r later h)
  ]
