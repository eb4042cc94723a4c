-- ===== src/Base/Xor.antt =====
-- Exclusive or, Go's `^` on bytes: applied twice with the same operand it gives the first back.
use Prim.Native.Nat.{
  ℕ, zero, suc, ◌+◌, ◌*◌, ◌/◌, ◌%◌, ◌≤◌, ◌<◌, bit_xor, digits, differ, bit_xor-bitwise,
}
use mathlib.Core.Path.{◌≡◌, refl}
use native.Mathlib.Omega.{arith}

abbrev xor_digits : ℕ → ℕ → ℕ → ℕ
xor_digits n a b = digits (λ b. b) differ n a b

-- More rounds than the first number needs change nothing.
xor_digits-rounds : (n m a b : ℕ) → a ≤ n → a ≤ m → xor_digits n a b ≡ xor_digits m a b
xor_digits-rounds zero zero a b h k = refl
xor_digits-rounds zero (suc m) zero b h k = refl
xor_digits-rounds (suc n) zero zero b h k = refl
xor_digits-rounds zero (suc m) (suc a) b h k = absurd (omega arith)
xor_digits-rounds (suc n) zero (suc a) b h k = absurd (omega arith)
xor_digits-rounds (suc n) (suc m) zero b h k = refl
xor_digits-rounds (suc n) (suc m) (suc a) b h k =
    omega (arith, xor_digits-rounds n m (suc a / 2) (b / 2) (omega arith) (omega arith))

zero-xor : (b : ℕ) → bit_xor 0 b ≡ b
zero-xor b = bit_xor-bitwise 0 b

differ_zero : (b : ℕ) → differ 0 b ≡ b
differ_zero b = refl

xor_step : (a b : ℕ) → bit_xor a b ≡ bit_xor (a / 2) (b / 2) * 2 + differ (a % 2) (b % 2)
xor_step zero b = omega (arith, zero-xor b, zero-xor (b / 2), differ_zero (b % 2))
xor_step (suc a) b = omega (
  arith,
  bit_xor-bitwise (suc a) b,
  bit_xor-bitwise (suc a / 2) (b / 2),
  xor_digits-rounds a (suc a / 2) (suc a / 2) (b / 2) (omega arith) (omega arith),
)

differ_bits : (x y : ℕ) → x < 2 → y < 2 → (differ x y < 2) × (differ (differ x y) y ≡ x)
differ_bits zero zero h k = (omega arith, refl)
differ_bits zero (suc zero) h k = (omega arith, refl)
differ_bits (suc zero) zero h k = (omega arith, refl)
differ_bits (suc zero) (suc zero) h k = (omega arith, refl)
differ_bits (suc (suc x)) y h k = absurd (omega arith)
differ_bits x (suc (suc y)) h k = absurd (omega arith)

-- The parts of an exclusive or.
xor_parts :
    (a k : ℕ)
    → (bit_xor a k / 2 ≡ bit_xor (a / 2) (k / 2)) × (bit_xor a k % 2 ≡ differ (a % 2) (k % 2))
xor_parts a k =
    let bits = differ_bits (a % 2) (k % 2) (omega arith) (omega arith) in
    (omega (arith, xor_step a k, bits.0), omega (arith, xor_step a k, bits.0))

xor_twice_below : (n a k : ℕ) → a + k ≤ n → bit_xor (bit_xor a k) k ≡ a
xor_twice_below zero a k h = let e : a ≡ 0 = omega arith in let f : k ≡ 0 = omega arith in rw (e, f)
xor_twice_below (suc n) a k h =
    let half = xor_twice_below n (a / 2) (k / 2) (omega arith) in
    let bits = differ_bits (a % 2) (k % 2) (omega arith) (omega arith) in
    rw (xor_step (bit_xor a k) k, (xor_parts a k).0, (xor_parts a k).1, half, bits.1) (omega arith)

pub xor_twice : (a k : ℕ) → bit_xor (bit_xor a k) k ≡ a
xor_twice a k = xor_twice_below (a + k) a k (omega arith)
