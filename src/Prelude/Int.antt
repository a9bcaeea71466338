-- ===== src/Prelude/Int.antt =====
-- Signed numbers, for the coordinates and the amounts of the source. `negsuc n` stands for -(n + 1).
use Prim.Native.Nat.{ℕ, suc, ◌+◌, ◌-◌, ◌≤◌}
use mathlib.Core.Path.{◌≡◌}
use mathlib.Core.Logic.{◌↔◌}
use mathlib.Core.Bool.{Bool}
use native.Mathlib.Omega.{arith}
use smart_pdf_extractor.Prelude.Tests.{ltb, leb, if◌then◌else◌}

pub data ℤ : Type 0 where
  pos negsuc : ℕ → ℤ

abbrev pub pos_part : ℤ → ℕ
pos_part (pos n) = n
pos_part (negsuc n) = 0

abbrev pub neg_part : ℤ → ℕ
neg_part (pos n) = 0
neg_part (negsuc n) = suc n

-- The number `a - b`.
abbrev pub difference : ℕ → ℕ → ℤ
difference a b = if leb b a then pos (a - b) else negsuc (b - a - 1)

infixl 65 ◌+ℤ◌ ◌-ℤ◌
unfoldable pub ◌+ℤ◌ : ℤ → ℤ → ℤ
x +ℤ y = difference (pos_part x + pos_part y) (neg_part x + neg_part y)

unfoldable pub ◌-ℤ◌ : ℤ → ℤ → ℤ
x -ℤ y = difference (pos_part x + neg_part y) (neg_part x + pos_part y)

abbrev pub ltb_ℤ : ℤ → ℤ → Bool
ltb_ℤ x y = ltb (pos_part x + neg_part y) (pos_part y + neg_part x)

-- `abs(x)`
unfoldable pub nat_abs : ℤ → ℕ
nat_abs x = pos_part x + neg_part x

pub +ℤ_parts :
    (x y : ℤ)
    → pos_part (x +ℤ y) + neg_part x + neg_part y ≡ neg_part (x +ℤ y) + pos_part x + pos_part y
unfolding ◌+ℤ◌
+ℤ_parts x y = ground arith

pub -ℤ_parts :
    (x y : ℤ)
    → pos_part (x -ℤ y) + neg_part x + pos_part y ≡ neg_part (x -ℤ y) + pos_part x + neg_part y
unfolding ◌-ℤ◌
-ℤ_parts x y = ground arith

-- One of the two parts is zero.
pub nat_abs-le :
    (x : ℤ) (n : ℕ)
    → (nat_abs x ≤ n) ↔ ((pos_part x ≤ n + neg_part x) × (neg_part x ≤ n + pos_part x))
unfolding nat_abs
nat_abs-le x n = ground arith

pub of_parts : (x y : ℤ) → pos_part x + neg_part y ≡ pos_part y + neg_part x → x ≡ y
of_parts x y h = ground arith

pub ruleset int_laws = (arith, +ℤ_parts, -ℤ_parts)

-- At most `n` apart.
abbrev pub IsWithin : ℕ → ℤ → ℤ → Type 0
IsWithin n x y =
    (pos_part x + neg_part y ≤ n + (pos_part y + neg_part x))
    × (pos_part y + neg_part x ≤ n + (pos_part x + neg_part y))

pub nat_abs-IsWithin : (x y : ℤ) (n : ℕ) → (nat_abs (x -ℤ y) ≤ n) ↔ IsWithin n x y
nat_abs-IsWithin x y n = (
  λ h. omega (arith, -ℤ_parts x y, (nat_abs-le (x -ℤ y) n).0 h),
  λ h. (nat_abs-le (x -ℤ y) n).1 (omega (arith, -ℤ_parts x y, h)),
)
