-- ===== src/Base/Int.antt =====
-- Signed integers over the native numbers, and the wrap-around of `i64`.
use Prim.Native.Nat.{ℕ, suc, ◌+◌, ◌-◌, ◌*◌, ◌/◌, ◌%◌, ◌^◌, ◌≤◌, ◌<◌, compare, Ordering}
use mathlib.Core.Path.{◌≡◌}
use mathlib.Core.Bool.{Bool, true, false}
use native.Mathlib.Omega.{arith}
use nova_db.Base.Tests.{ltb, leb, ◌==◌, if◌then◌else◌}

-- `negsuc n` is -(n + 1).
pub data ℤ : Type 0 where
  pos : ℕ → ℤ
  negsuc : ℕ → ℤ

abbrev pub pos_part : ℤ → ℕ
pos_part (pos n) = n
pos_part (negsuc n) = 0

abbrev pub neg_part : ℤ → ℕ
neg_part (pos n) = 0
neg_part (negsuc n) = suc n

-- a - b, as an integer.
abbrev pub sub_ℕ : ℕ → ℕ → ℤ
sub_ℕ a b = if leb b a then pos (a - b) else negsuc (b - a - 1)

-- `i64::cmp`
abbrev pub int_cmp : ℤ → ℤ → Ordering
int_cmp a b = compare (pos_part a + neg_part b) (pos_part b + neg_part a)

abbrev pub int_eq : ℤ → ℤ → Bool
int_eq a b = (pos_part a + neg_part b) == (pos_part b + neg_part a)

abbrev pub IsI64 : ℤ → Type 0
IsI64 a = (pos_part a < 2 ^ 63) × (neg_part a ≤ 2 ^ 63)

-- The bit pattern of `p - q` modulo 2 ^ 64, read as a signed number.
abbrev pub of_bits : ℕ → ℤ
of_bits u = if ltb u (2 ^ 63) then pos u else negsuc (2 ^ 64 - u - 1)

abbrev pub wrap : ℕ → ℕ → ℤ
wrap p q = of_bits ((p % 2 ^ 64 + 2 ^ 64 - q % 2 ^ 64) % 2 ^ 64)

-- `a + b`, `a - b`, `a * b` and `-a` of a release build, where overflow wraps around.
unfoldable pub wrapping_add : ℤ → ℤ → ℤ
wrapping_add a b = wrap (pos_part a + pos_part b) (neg_part a + neg_part b)

unfoldable pub wrapping_sub : ℤ → ℤ → ℤ
wrapping_sub a b = wrap (pos_part a + neg_part b) (neg_part a + pos_part b)

unfoldable pub wrapping_mul : ℤ → ℤ → ℤ
wrapping_mul a b =
    wrap (pos_part a * pos_part b + neg_part a * neg_part b)
      (pos_part a * neg_part b + neg_part a * pos_part b)

unfoldable pub wrapping_neg : ℤ → ℤ
wrapping_neg a = wrap (neg_part a) (pos_part a)

abbrev pub abs : ℤ → ℕ
abs a = pos_part a + neg_part a

abbrev pub negate_if : Bool → ℕ → ℤ
negate_if false n = pos n
negate_if true n = sub_ℕ 0 n

abbrev pub is_neg : ℤ → Bool
is_neg (pos n) = false
is_neg (negsuc n) = true

abbrev differ : Bool → Bool → Bool
differ true true = false
differ false false = false
differ _ _ = true

-- `a / b` and `a % b` for b ≢ 0: the quotient is rounded towards zero, the remainder has the sign of a.
unfoldable pub div : ℤ → ℤ → ℤ
div a b = negate_if (differ (is_neg a) (is_neg b)) (abs a / abs b)

unfoldable pub rem : ℤ → ℤ → ℤ
rem a b = negate_if (is_neg a) (abs a % abs b)

-- In range, the wrapped sum is the sum.
pub wrapping_add_parts :
    (a b : ℤ)
    → IsI64 (sub_ℕ (pos_part a + pos_part b) (neg_part a + neg_part b))
    → IsI64 a
    → IsI64 b
    → wrapping_add a b ≡ sub_ℕ (pos_part a + pos_part b) (neg_part a + neg_part b)
unfolding wrapping_add
wrapping_add_parts a b h ha hb = ground arith

-- `i as u64`
abbrev pub as_u64 : ℤ → ℕ
as_u64 (pos n) = n % 2 ^ 64
as_u64 (negsuc n) = (2 ^ 64 - 1 - n) % 2 ^ 64
