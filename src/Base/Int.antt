-- ===== src/Base/Int.antt =====
-- Go's `int` as an integer, and its range tests.
use Prim.Native.Nat.{ℕ, ◌≤◌}
use mathlib.Core.Path.{◌≡◌, refl, ap}
use mathlib.Core.Bool.{Bool, true, false, ◌||◌}
use native.Mathlib.Omega.{arith}
use torvmremix.Base.Tests.{ltb, ◌==◌}

-- `negsuc n` is -(n + 1).
pub data ℤ : Type 0 where
  pos : ℕ → ℤ
  negsuc : ℕ → ℤ

-- `z < n` and `n < z` against a literal that is not negative.
abbrev pub lt_lit : ℤ → ℕ → Bool
lt_lit (pos m) n = ltb m n
lt_lit (negsuc m) n = true

abbrev pub gt_lit : ℤ → ℕ → Bool
gt_lit (pos m) n = ltb n m
gt_lit (negsuc m) n = false

abbrev pub is_zero : ℤ → Bool
is_zero (pos m) = m == 0
is_zero (negsuc m) = false

-- `z < lo || z > hi`, the test by which a setting is refused.
abbrev pub outside : ℕ → ℕ → ℤ → Bool
outside lo hi z = lt_lit z lo || gt_lit z hi

-- The integers from `lo` to `hi`.
abbrev pub InRange : ℕ → ℕ → ℤ → Type 0
InRange lo hi z = (n : ℕ) × (z ≡ pos n) × (lo ≤ n) × (n ≤ hi)

pub outside-InRange : (lo hi : ℕ) (z : ℤ) → outside lo hi z ≡ false → InRange lo hi z
outside-InRange lo hi (pos n) h = (n, refl, ground arith, ground arith)
outside-InRange lo hi (negsuc n) h = absurd (ground arith)

pub InRange-outside : (lo hi : ℕ) (z : ℤ) → InRange lo hi z → outside lo hi z ≡ false
InRange-outside lo hi z h = ground arith

-- `x < y`
abbrev pub lt_int : ℤ → ℤ → Bool
lt_int (pos a) (pos b) = ltb a b
lt_int (pos a) (negsuc b) = false
lt_int (negsuc a) (pos b) = true
lt_int (negsuc a) (negsuc b) = ltb b a

pub lt_int_trans : (x y z : ℤ) → lt_int x y ≡ true → lt_int z y ≡ false → lt_int x z ≡ true
lt_int_trans (pos a) (pos b) (pos c) h k = ground arith
lt_int_trans (pos a) (pos b) (negsuc c) h k = ground arith
lt_int_trans (pos a) (negsuc b) z h k = ground arith
lt_int_trans (negsuc a) (pos b) (pos c) h k = ground arith
lt_int_trans (negsuc a) (pos b) (negsuc c) h k = ground arith
lt_int_trans (negsuc a) (negsuc b) (pos c) h k = ground arith
lt_int_trans (negsuc a) (negsuc b) (negsuc c) h k = ground arith

pub lt_int_asym : (x y : ℤ) → lt_int x y ≡ true → lt_int y x ≡ false
lt_int_asym (pos a) (pos b) h = ground arith
lt_int_asym (pos a) (negsuc b) h = ground arith
lt_int_asym (negsuc a) (pos b) h = ground arith
lt_int_asym (negsuc a) (negsuc b) h = ground arith

pub lt_int_connected : (x y : ℤ) → lt_int x y ≡ false → lt_int y x ≡ false → x ≡ y
lt_int_connected (pos a) (pos b) h k = ap pos (ground arith)
lt_int_connected (pos a) (negsuc b) h k = cc
lt_int_connected (negsuc a) (pos b) h k = cc
lt_int_connected (negsuc a) (negsuc b) h k = ap negsuc (ground arith)
