-- ===== src/Bits/Digit.antt =====
-- A number is the sequence of its bits.
use Prim.Native.Nat.{max}
use muggle_cc.Base.{
  ℕ, zero, suc, ◌+◌, ◌*◌, ◌/◌, ◌%◌, ◌^◌, ◌≤◌, ◌<◌, ◌≡◌, refl, ap, ◌∙◌, arith, bit_or, if◌then◌else◌,
  ◌==◌, ltb, ◌-◌,
}
use muggle_cc.Bits.Step.{bit_or_step}
use native.Mathlib.Nat.{pow-suc, div-div-eq-div-mul}

-- Bit `i` of `x`, by halving.
unfoldable pub bit : ℕ → ℕ → ℕ
bit x zero = x % 2
bit x (suc i) = bit (x / 2) i

pub bit-zero : (i : ℕ) → bit 0 i ≡ 0
unfolding bit
bit-zero zero = refl
bit-zero (suc i) = bit-zero i

pub bit-bit_or : (i a b : ℕ) → bit (bit_or a b) i ≡ max (bit a i) (bit b i)
unfolding bit
bit-bit_or zero a b = omega (arith, bit_or_step a b)
bit-bit_or (suc i) a b =
    ap (λ t. bit t i) (omega (arith, bit_or_step a b)) ∙ bit-bit_or i (a / 2) (b / 2)

-- Numbers of `k` bits with the same bits are the same.
pub bit_ext : (k a b : ℕ) → a < 2 ^ k → b < 2 ^ k → ((i : ℕ) → i < k → bit a i ≡ bit b i) → a ≡ b
unfolding bit
bit_ext zero a b h l same = omega arith
bit_ext (suc k) a b h l same = omega (
  arith,
  same 0 (omega arith),
  bit_ext k (a / 2) (b / 2) (omega (arith, pow-suc 2 k)) (omega (arith, pow-suc 2 k))
      (λ i lt. same (suc i) (omega arith)),
)

pub bit-le : (x i : ℕ) → bit x i ≤ 1
unfolding bit
bit-le x zero = omega arith
bit-le x (suc i) = bit-le (x / 2) i

-- A bit by a shift, as C reads it.
pub bit-eq-shift : (x i : ℕ) → bit x i ≡ x / 2 ^ i % 2
unfolding bit
bit-eq-shift x zero = omega arith
bit-eq-shift x (suc i) =
    let twice : 2 * 2 ^ i ≡ 2 ^ suc i = omega (arith, pow-suc 2 i) in
    bit-eq-shift (x / 2) i
    ∙ ap (λ t. t % 2) (div-div-eq-div-mul x 2 (2 ^ i) ∙ ap (λ t. x / t) twice)

mul-pow-suc : (b t : ℕ) → b * 2 ^ suc t ≡ b * 2 ^ t * 2
mul-pow-suc b t = omega (arith, ap (λ k. b * k) (pow-suc 2 t))

-- A single bit.
pub bit-mul-pow : (b t j : ℕ) → b ≤ 1 → bit (b * 2 ^ t) j ≡ (if j == t then b else 0)
unfolding bit
bit-mul-pow b zero zero h = ground arith
bit-mul-pow b zero (suc j) h =
    let none_left : b * 2 ^ 0 / 2 ≡ 0 = omega arith in
    ground (arith, ap (λ k. bit k j) none_left, bit-zero j)
bit-mul-pow b (suc t) zero h = ground (arith, mul-pow-suc b t)
bit-mul-pow b (suc t) (suc j) h =
    let half : b * 2 ^ suc t / 2 ≡ b * 2 ^ t = omega (arith, mul-pow-suc b t) in
    ground (arith, ap (λ k. bit k j) half, bit-mul-pow b t j h)

-- Two words side by side.
pub bit-add-pow :
    (k l h j : ℕ) → l < 2 ^ k → bit (l + h * 2 ^ k) j ≡ (if ltb j k then bit l j else bit h (j - k))
unfolding bit
bit-add-pow zero l h j lt =
    let whole : l + h * 2 ^ 0 ≡ h = omega arith in
    let same : j - 0 ≡ j = omega arith in
    ground (arith, ap (λ t. bit t j) whole, ap (λ t. bit h t) same)
bit-add-pow (suc k) l h zero lt = ground (arith, mul-pow-suc h k)
bit-add-pow (suc k) l h (suc j) lt =
    let half : (l + h * 2 ^ suc k) / 2 ≡ l / 2 + h * 2 ^ k = omega (arith, mul-pow-suc h k) in
    let same : suc j - suc k ≡ j - k = omega arith in
    ground (
      arith,
      ap (λ t. bit t j) half,
      ap (λ t. bit h t) same,
      bit-add-pow k (l / 2) h j (omega (arith, pow-suc 2 k)),
    )

pub bit_or-lt-pow : (k a b : ℕ) → a < 2 ^ k → b < 2 ^ k → bit_or a b < 2 ^ k
bit_or-lt-pow zero zero zero h l = omega arith
bit_or-lt-pow zero zero (suc b) h l = absurd (omega arith)
bit_or-lt-pow zero (suc a) b h l = absurd (omega arith)
bit_or-lt-pow (suc k) a b h l = omega (
  arith,
  pow-suc 2 k,
  bit_or_step a b,
  bit_or-lt-pow k (a / 2) (b / 2) (omega (arith, pow-suc 2 k)) (omega (arith, pow-suc 2 k)),
)
