-- ===== src/Base/Int.antt =====
-- Signed machine integers whose values stay in range: Go's int and time.Duration, as ℤ over the
-- native numbers. Where the source's arithmetic can overflow, the module that models it wraps.
use Prim.Native.Nat.{ℕ, suc, compare, Ordering}
use mathlib.Core.Bool.{Bool, true, false}

-- `negsuc n` is -(n + 1)
pub data ℤ : Type 0 where
  pos : ℕ → ℤ
  negsuc : ℕ → ℤ

abbrev pub pos_part : ℤ → ℕ
pos_part (pos n) = n
pos_part (negsuc _) = 0

abbrev pub neg_part : ℤ → ℕ
neg_part (pos _) = 0
neg_part (negsuc n) = suc n

-- i < k and k < i, for a constant k that is not negative
abbrev pub is_below : ℤ → ℕ → Bool
is_below (pos n) k = elim (compare n k) [ Ordering.lt ↦ true | _ ↦ false ]
is_below (negsuc _) _ = true

abbrev pub is_above : ℤ → ℕ → Bool
is_above (pos n) k = elim (compare k n) [ Ordering.lt ↦ true | _ ↦ false ]
is_above (negsuc _) _ = false

-- i == 0
abbrev pub is_zero : ℤ → Bool
is_zero (pos n) = elim (compare n 0) [ Ordering.eq ↦ true | _ ↦ false ]
is_zero (negsuc _) = false

-- k ≤ i
abbrev pub at_least : ℤ → ℤ → Bool
at_least (pos i) (pos k) = elim (compare i k) [ Ordering.lt ↦ false | _ ↦ true ]
at_least (pos i) (negsuc k) = true
at_least (negsuc i) (pos k) = false
at_least (negsuc i) (negsuc k) = elim (compare k i) [ Ordering.lt ↦ false | _ ↦ true ]
