-- ===== src/Bits/Step.antt =====
-- `^` and `|` by the lowest bit.
use Prim.Native.Nat.{differ, max, digits, bit_xor-bitwise, bit_or-bitwise}
use muggle_cc.Base.{
  ℕ, zero, suc, ◌+◌, ◌*◌, ◌/◌, ◌%◌, ◌≤◌, ◌<◌, ◌≡◌, refl, ap, arith, bit_xor, bit_or,
}

-- Both are a recursion with as much fuel as the first number has.
fuel_irrelevant :
    (f : ℕ → ℕ → ℕ) (n k a b : ℕ)
    → a ≤ n
    → a ≤ k
    → digits (λ y. y) f n a b ≡ digits (λ y. y) f k a b
fuel_irrelevant f zero zero a b h l = refl
fuel_irrelevant f zero (suc k) zero b h l = refl
fuel_irrelevant f zero (suc k) (suc a) b h l = absurd (omega arith)
fuel_irrelevant f (suc n) zero zero b h l = refl
fuel_irrelevant f (suc n) zero (suc a) b h l = absurd (omega arith)
fuel_irrelevant f (suc n) (suc k) zero b h l = refl
fuel_irrelevant f (suc n) (suc k) (suc a) b h l =
    ap (λ t. t * 2 + f (suc a % 2) (b % 2))
      (fuel_irrelevant f n k (suc a / 2) (b / 2) (omega arith) (omega arith))

differ-eq-mod : (x y : ℕ) → x < 2 → y < 2 → differ x y ≡ (x + y) % 2
differ-eq-mod zero y h l = omega arith
differ-eq-mod (suc zero) zero h l = refl
differ-eq-mod (suc zero) (suc zero) h l = refl
differ-eq-mod (suc zero) (suc (suc y)) h l = absurd (omega arith)
differ-eq-mod (suc (suc x)) y h l = absurd (omega arith)

pub bit_xor_step : (a b : ℕ) → bit_xor a b ≡ bit_xor (a / 2) (b / 2) * 2 + (a + b) % 2
bit_xor_step zero b = omega (arith, bit_xor-bitwise 0 b, bit_xor-bitwise 0 (b / 2))
bit_xor_step (suc a) b = omega (
  arith,
  bit_xor-bitwise (suc a) b,
  bit_xor-bitwise (suc a / 2) (b / 2),
  fuel_irrelevant differ a (suc a / 2) (suc a / 2) (b / 2) (omega arith) (omega arith),
  differ-eq-mod (suc a % 2) (b % 2) (omega arith) (omega arith),
)

pub bit_or_step : (a b : ℕ) → bit_or a b ≡ bit_or (a / 2) (b / 2) * 2 + max (a % 2) (b % 2)
bit_or_step zero b = omega (arith, bit_or-bitwise 0 b, bit_or-bitwise 0 (b / 2))
bit_or_step (suc a) b = omega (
  arith,
  bit_or-bitwise (suc a) b,
  bit_or-bitwise (suc a / 2) (b / 2),
  fuel_irrelevant max a (suc a / 2) (suc a / 2) (b / 2) (omega arith) (omega arith),
)
