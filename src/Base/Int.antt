-- ===== src/Base/Int.antt =====
-- The C `int`s that calls return: the library's constructors, over the native numbers.
use Prim.Native.Nat.{ℕ, compare, Ordering}
use mathlib.Core.Path.{◌≡◌}
use mathlib.Core.Bool.{Bool, true, false}
use native.Mathlib.Omega.{arith}
use zephyr_samples.Base.Tests.{◌==◌, leb}

-- `negsuc n` is -(n + 1).
pub data ℤ : Type 0 where
  pos : ℕ → ℤ
  negsuc : ℕ → ℤ

-- `r < 0`
abbrev pub is_neg : ℤ → Bool
is_neg (pos n) = false
is_neg (negsuc n) = true

-- `r == 0`
abbrev pub is_zero : ℤ → Bool
is_zero (pos n) = n == 0
is_zero (negsuc n) = false

-- `r > 0`
abbrev pub is_positive : ℤ → Bool
is_positive (pos n) = elim (compare n 0) [ Ordering.gt ↦ true | _ ↦ false ]
is_positive (negsuc n) = false

-- The value where the code has checked that it is not negative.
abbrev pub to_ℕ : ℤ → ℕ
to_ℕ (pos n) = n
to_ℕ (negsuc n) = 0

-- Whether an index leaves a buffer of `size` elements, on either side.
abbrev pub outside : ℕ → ℤ → Bool
outside size (pos n) = leb size n
outside size (negsuc n) = true

pub not-outside :
    (size : ℕ) (r : ℤ) → is_neg r ≡ false → leb size (to_ℕ r) ≡ false → outside size r ≡ false
not-outside size (pos n) e h = h
not-outside size (negsuc n) e h = e

-- `a == b`
unfoldable pub int_eq : ℤ → ℤ → Bool
int_eq (pos m) (pos n) = m == n
int_eq (negsuc m) (negsuc n) = m == n
int_eq _ _ = false

pub int_eq_refl : (a : ℤ) → int_eq a a ≡ true
unfolding int_eq
int_eq_refl (pos n) = ground arith
int_eq_refl (negsuc n) = ground arith
