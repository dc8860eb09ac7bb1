-- ===== src/Base/Int.antt =====
-- The C `int` that comparison functions return. Only its sign is read by the callers, so the tests
-- `r < 0`, `r > 0` and `r == 0` are functions of their own. All values the program computes
-- are far below INT_MAX in size, so no wrap-around is written.
use Prim.Native.Nat.{ℕ, zero, suc, ◌-◌}
use mathlib.Core.Path.{◌≡◌, refl}
use mathlib.Core.Bool.{Bool, true, false}
use native.Mathlib.Omega.{arith}
use rank.Base.Tests.{ltb, leb, ◌==◌, if◌then◌else◌}

-- `negsuc n` is -(n + 1).
pub data ℤ : Type 0 where
  pos : ℕ → ℤ
  negsuc : ℕ → ℤ

abbrev pub is_neg : ℤ → Bool
is_neg (pos n) = false
is_neg (negsuc n) = true

abbrev pub is_pos : ℤ → Bool
is_pos (pos n) = ltb 0 n
is_pos (negsuc n) = false

abbrev pub is_zero : ℤ → Bool
is_zero (pos n) = n == 0
is_zero (negsuc n) = false

-- `-r`
abbrev pub neg : ℤ → ℤ
neg (pos zero) = pos zero
neg (pos (suc n)) = negsuc n
neg (negsuc n) = pos (suc n)

-- `a - b`, for two values converted from `unsigned char` or small non-negative `int`s.
abbrev pub sub_ℕ : ℕ → ℕ → ℤ
sub_ℕ a b = if leb b a then pos (a - b) else negsuc (b - a - 1)

-- `if (a < b) return -1; if (a > b) return 1; return 0;`
abbrev pub three_way : ℕ → ℕ → ℤ
three_way a b = if ltb a b then negsuc 0 else if ltb b a then pos 1 else pos 0

-- `result < 0 ? -1 : 1`, of a result that is not 0.
abbrev pub unit_sign : ℤ → ℤ
unit_sign r = if is_neg r then negsuc 0 else pos 1

-- -1, 0 or 1.
abbrev pub sign : ℤ → ℤ
sign r = if is_neg r then negsuc 0 else if is_pos r then pos 1 else pos 0

pub is_pos-neg : (r : ℤ) → is_pos (neg r) ≡ is_neg r
is_pos-neg (pos zero) = refl
is_pos-neg (pos (suc n)) = refl
is_pos-neg (negsuc n) = ground arith

pub is_neg-neg : (r : ℤ) → is_neg (neg r) ≡ is_pos r
is_neg-neg (pos zero) = refl
is_neg-neg (pos (suc n)) = ground arith
is_neg-neg (negsuc n) = refl

pub is_zero-neg : (r : ℤ) → is_zero (neg r) ≡ is_zero r
is_zero-neg (pos zero) = refl
is_zero-neg (pos (suc n)) = ground arith
is_zero-neg (negsuc n) = ground arith
