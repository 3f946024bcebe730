-- ===== src/Nullable.antt =====
-- pkg/nullable/nullable.go: a value that may be null, over a comparable type with a zero value.
use golang_restapi.Base.{Bool, true, false, Option, none, some, Eq, ◌==◌, if◌then◌else◌, ℕ, String}

pub record Zero {ℓ} (A : Type ℓ) : Type ℓ where
  pub zero_value : A

instance abbrev pub nat_zero : Zero ℕ
nat_zero = record { zero_value = 0 }

instance abbrev pub string_zero : Zero String
string_zero = record { zero_value = "" }

pub record Nullable {ℓ} (A : Type ℓ) : Type ℓ where
  pub val : A
  pub valid : Bool

-- the zero Nullable, which a struct literal leaves and SQL NULL scans to
abbrev pub null {ℓ} : {A : Type ℓ} ⦃z : Zero A⦄ → Nullable A
null ⦃z⦄ = record { val = z.zero_value; valid = false }

module _ {ℓ} {A : Type ℓ} ⦃e : Eq A⦄ ⦃z : Zero A⦄ where
  -- New
  unfoldable pub new : A → Bool → Nullable A
  new value allow_zero =
      if value == z.zero_value
      then record { val = z.zero_value; valid = allow_zero }
      else record { val = value; valid = true }

  -- Set
  unfoldable pub set : A → Bool → Nullable A → Nullable A
  set value allow_zero n =
      if value == z.zero_value
      then record n { val = z.zero_value; valid = allow_zero }
      else record { val = value; valid = true }

  -- Value, the driver's view, and Scan of a value that is NULL or of the type itself
  unfoldable pub value : Nullable A → Option A
  value n = if n.valid then some n.val else none

  unfoldable pub scan : Option A → Nullable A
  scan none = null
  scan (some v) = record { val = v; valid = true }

abbrev pub not_null {ℓ} : {A : Type ℓ} → Nullable A → Bool
not_null n = n.valid

abbrev pub get {ℓ} : {A : Type ℓ} → Nullable A → A
get n = n.val
