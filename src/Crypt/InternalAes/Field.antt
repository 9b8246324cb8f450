-- ===== src/Crypt/InternalAes/Field.antt =====
-- `galois_mul` is linear in its second argument, for exclusive or.
use muggle_cc.Base.{
  ℕ, zero, suc, ◌*◌, ◌/◌, ◌<◌, ◌≡◌, refl, sym, ap, ◌∙◌, arith, true, if◌then◌else◌, ◌==◌, ==_iff,
  ltb, ltb→lt, all_below, all_below-true, bit_and, bit_xor,
}
use muggle_cc.Bits.Step.{bit_xor_step}
use muggle_cc.Bits.Xor.{half-bit_xor, bit_xor_medial, bit_xor-lt-pow, bit_xor_self}
use muggle_cc.Crypt.InternalAes.{double, galois_loop, galois_mul}

-- Doubling, without a test.
double_table : all_below 256 (λ b. double b == bit_xor (b * 2) (b / 128 * 283)) ≡ true
unfolding all_below double
double_table = refl

double_bytes : all_below 256 (λ b. ltb (double b) 256) ≡ true
unfolding all_below double
double_bytes = refl

double-eq : (b : ℕ) → b < 256 → double b ≡ bit_xor (b * 2) (b / 128 * 283)
double-eq b h = (==_iff _ _).0 (all_below-true 256 _ b double_table h)

pub double-lt : (b : ℕ) → b < 256 → double b < 256
double-lt b h = ltb→lt _ 256 (all_below-true 256 _ b double_bytes h)

twice-bit_xor : (a b : ℕ) → bit_xor a b * 2 ≡ bit_xor (a * 2) (b * 2)
twice-bit_xor a b =
    let left : a * 2 / 2 ≡ a = omega arith in
    let right : b * 2 / 2 ≡ b = omega arith in
    omega (
      arith,
      bit_xor_step (a * 2) (b * 2),
      ap (λ t. bit_xor t (b * 2 / 2)) left,
      ap (λ t. bit_xor a t) right,
    )

top_bit : (a b : ℕ) → bit_xor a b / 128 ≡ bit_xor (a / 128) (b / 128)
top_bit a b =
    let h1 = half-bit_xor a b in
    let h2 = half-bit_xor (a / 2) (b / 2) in
    let h3 = half-bit_xor (a / 2 / 2) (b / 2 / 2) in
    let h4 = half-bit_xor (a / 2 / 2 / 2) (b / 2 / 2 / 2) in
    let h5 = half-bit_xor (a / 2 / 2 / 2 / 2) (b / 2 / 2 / 2 / 2) in
    let h6 = half-bit_xor (a / 2 / 2 / 2 / 2 / 2) (b / 2 / 2 / 2 / 2 / 2) in
    let h7 = half-bit_xor (a / 2 / 2 / 2 / 2 / 2 / 2) (b / 2 / 2 / 2 / 2 / 2 / 2) in
    let a7 : a / 2 / 2 / 2 / 2 / 2 / 2 / 2 ≡ a / 128 = omega arith in
    let b7 : b / 2 / 2 / 2 / 2 / 2 / 2 / 2 ≡ b / 128 = omega arith in
    omega (
      arith,
      h1,
      h2,
      h3,
      h4,
      h5,
      h6,
      h7,
      ap (λ t. bit_xor t (b / 2 / 2 / 2 / 2 / 2 / 2 / 2)) a7,
      ap (λ t. bit_xor (a / 128) t) b7,
    )

scale_bit : (x y : ℕ) → x < 2 → y < 2 → bit_xor x y * 283 ≡ bit_xor (x * 283) (y * 283)
scale_bit zero zero h l = refl
scale_bit zero (suc zero) h l = refl
scale_bit (suc zero) zero h l = refl
scale_bit (suc zero) (suc zero) h l = refl
scale_bit x y h l = absurd (omega arith)

pub double-bit_xor :
    (a b : ℕ) → a < 256 → b < 256 → double (bit_xor a b) ≡ bit_xor (double a) (double b)
double-bit_xor a b h l =
    double-eq (bit_xor a b) (bit_xor-lt-pow 8 a b h l)
    ∙ ap (λ t. bit_xor t (bit_xor a b / 128 * 283)) (twice-bit_xor a b)
    ∙ ap (λ t. bit_xor (bit_xor (a * 2) (b * 2)) (t * 283)) (top_bit a b)
    ∙ ap (λ t. bit_xor (bit_xor (a * 2) (b * 2)) t)
        (scale_bit (a / 128) (b / 128) (omega arith) (omega arith))
    ∙ bit_xor_medial (a * 2) (b * 2) (a / 128 * 283) (b / 128 * 283)
    ∙ ap (λ t. bit_xor t (bit_xor (b * 2) (b / 128 * 283))) (sym (double-eq a h))
    ∙ ap (λ t. bit_xor (double a) t) (sym (double-eq b l))

galois_loop-bit_xor :
    (fuel a b c r s : ℕ)
    → b < 256
    → c < 256
    → galois_loop fuel a (bit_xor b c) (bit_xor r s)
      ≡ bit_xor (galois_loop fuel a b r) (galois_loop fuel a c s)
unfolding galois_loop
galois_loop-bit_xor zero a b c r s h l = refl
galois_loop-bit_xor (suc fuel) a b c r s h l = ground (
  arith,
  double-bit_xor b c,
  bit_xor_medial r s b c,
  galois_loop-bit_xor fuel (a / 2) (double b) (double c) r s (double-lt b h) (double-lt c l),
  galois_loop-bit_xor fuel (a / 2) (double b) (double c) (bit_xor r b) (bit_xor s c) (double-lt b h)
      (double-lt c l),
)

pub galois_mul-bit_xor :
    (a b c : ℕ)
    → b < 256
    → c < 256
    → galois_mul a (bit_xor b c) ≡ bit_xor (galois_mul a b) (galois_mul a c)
unfolding galois_mul
galois_mul-bit_xor a b c h l =
    ap (galois_loop 8 a (bit_xor b c)) (sym (bit_xor_self 0)) ∙ galois_loop-bit_xor 8 a b c 0 0 h l

galois_loop-lt : (fuel a b r : ℕ) → b < 256 → r < 256 → galois_loop fuel a b r < 256
unfolding galois_loop
galois_loop-lt zero a b r h l = l
galois_loop-lt (suc fuel) a b r h l = ground (
  arith,
  galois_loop-lt fuel (a / 2) (double b) (if bit_and a 1 == 0 then r else bit_xor r b),
  double-lt b h,
  bit_xor-lt-pow 8 r b l h,
)

pub galois_mul-lt : (a b : ℕ) → b < 256 → galois_mul a b < 256
unfolding galois_mul
galois_mul-lt a b h = galois_loop-lt 8 a b 0 h (omega arith)
