-- ===== src/Base/Int64.antt =====
-- Go's int64 as its two's complement bit pattern, a number below 2 ^ 64. A pattern below 2 ^ 63
-- stands for itself; one from there on stands for that number less 2 ^ 64.
use Prim.Native.Nat.{ℕ, ◌+◌, ◌-◌, ◌*◌, ◌/◌, ◌%◌, ◌<◌, ◌≤◌}
use mathlib.Core.Path.{◌≡◌}
use mathlib.Core.Bool.{Bool, false, ◌||◌}
use native.Mathlib.Omega.{arith}
use hybrid_quantum_banking_b.Base.Tests.{ltb, leb, ◌==◌, if◌then◌else◌}

abbrev pub modulus : ℕ
modulus = 18446744073709551616

-- 2 ^ 63, the first pattern of a negative number.
abbrev pub sign_bit : ℕ
sign_bit = 9223372036854775808

-- `a + b`, `a - b` and `a * b` wrap.
abbrev pub add64 : ℕ → ℕ → ℕ
add64 a b = (a + b) % modulus

abbrev pub sub64 : ℕ → ℕ → ℕ
sub64 a b = (a + modulus - b) % modulus

abbrev pub mul64 : ℕ → ℕ → ℕ
mul64 a b = a * b % modulus

-- `a < 0`
abbrev pub is_negative : ℕ → Bool
is_negative a = leb sign_bit a

-- `a <= 0`
abbrev pub non_positive : ℕ → Bool
non_positive a = a == 0 || leb sign_bit a

-- `a < b`, read as signed numbers.
abbrev pub lt64 : ℕ → ℕ → Bool
lt64 a b = ltb ((a + sign_bit) % modulus) ((b + sign_bit) % modulus)

-- `a <= b`, read as signed numbers.
abbrev pub le64 : ℕ → ℕ → Bool
le64 a b = leb ((a + sign_bit) % modulus) ((b + sign_bit) % modulus)

-- `a / k` truncates towards zero.
abbrev pub div64 : ℕ → ℕ → ℕ
div64 a k = if is_negative a then (modulus - (modulus - a) / k) % modulus else a / k

-- The value is one that the source can hold and is at least 0.
abbrev pub IsNat : ℕ → Type 0
IsNat a = a < sign_bit

pub add64-eq-add : (a b : ℕ) → a + b < sign_bit → add64 a b ≡ a + b
add64-eq-add a b h = omega arith

pub sub64-eq-sub : (a b : ℕ) → b ≤ a → a < sign_bit → sub64 a b ≡ a - b
sub64-eq-sub a b h k = omega arith

pub positive : (n : ℕ) → 0 < n → n < sign_bit → non_positive n ≡ false
positive n p h = ground arith
