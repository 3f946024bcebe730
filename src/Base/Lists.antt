-- ===== src/Base/Lists.antt =====
-- Lists measured by native numbers, and tables: lists of rows that a statement selects from,
-- updates or adds to.
use Prim.Native.Nat.{ℕ, suc, ◌+◌}
use mathlib.Core.Path.{◌≡◌, refl}
use mathlib.Core.Bool.{Bool, true, false, cond, ◌||◌, ◌&&◌}
use mathlib.Core.Option.{Option, none, some}
use mathlib.Core.List.{List, [], ◌∷◌, ◌++◌}
use native.Mathlib.Omega.{arith}

module _ {ℓ} {A : Type ℓ} where
  abbrev pub length : List A → ℕ
  length [] = 0
  length (x ∷ xs) = suc (length xs)

  abbrev pub all : (A → Bool) → List A → Bool
  all p [] = true
  all p (x ∷ xs) = p x && all p xs

  abbrev pub any : (A → Bool) → List A → Bool
  any p [] = false
  any p (x ∷ xs) = p x || any p xs

  pub length-append : (xs ys : List A) → length (xs ++ ys) ≡ length xs + length ys
  length-append [] ys = omega arith
  length-append (x ∷ xs) ys = omega (arith, length-append xs ys)

  -- SELECT ... WHERE test, read as one row
  unfoldable pub select_one : (A → Bool) → List A → Option A
  select_one test [] = none
  select_one test (r ∷ rows) = cond (test r) (some r) (select_one test rows)

  -- SELECT ... WHERE test
  unfoldable pub select_all : (A → Bool) → List A → List A
  select_all test [] = []
  select_all test (r ∷ rows) = cond (test r) (r ∷ select_all test rows) (select_all test rows)

  -- UPDATE ... SET change WHERE test
  unfoldable pub update_where : (A → Bool) → (A → A) → List A → List A
  update_where test change [] = []
  update_where test change (r ∷ rows) = cond (test r) (change r) r ∷ update_where test change rows

module _ {ℓ κ} {A : Type ℓ} (P : A → Type κ) where
  abbrev pub All : List A → Type κ
  All [] = Unit
  All (x ∷ xs) = P x × All xs

module _ {ℓ} {A : Type ℓ} (test : A → Bool) (change : A → A) where
  -- What holds of every row and of each changed row holds after an update.
  pub All-update_where {κ} :
      (P : A → Type κ) (rows : List A)
      → ((r : A) → test r ≡ true → P r → P (change r))
      → All P rows
      → All P (update_where test change rows)
  unfolding update_where
  All-update_where P [] k h = tt
  All-update_where P (r ∷ rows) k (p, h) = (go (test r) refl, All-update_where P rows k h)
    where
      go : (b : Bool) → test r ≡ b → P (cond b (change r) r)
      go true e = k r e p
      go false e = p

  -- A test that the change does not affect finds a row as before.
  pub any-update_where :
      (p : A → Bool) (rows : List A)
      → ((r : A) → p (change r) ≡ p r)
      → any p (update_where test change rows) ≡ any p rows
  unfolding update_where
  any-update_where p [] k = refl
  any-update_where p (r ∷ rows) k = ground (arith, k r, any-update_where p rows k)
