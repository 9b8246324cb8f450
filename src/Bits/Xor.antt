-- ===== src/Bits/Xor.antt =====
-- Exclusive or is a commutative group in which every number is its own inverse.
use muggle_cc.Base.{ℕ, zero, suc, ◌+◌, ◌/◌, ◌^◌, ◌≤◌, ◌<◌, ◌≡◌, refl, sym, ap, ◌∙◌, arith, bit_xor}
use muggle_cc.Bits.Step.{bit_xor_step}
use native.Mathlib.Nat.{pow-suc}

pub half-bit_xor : (a b : ℕ) → bit_xor a b / 2 ≡ bit_xor (a / 2) (b / 2)
half-bit_xor a b = omega (arith, bit_xor_step a b)

comm_below : (n a b : ℕ) → a ≤ n → b ≤ n → bit_xor a b ≡ bit_xor b a
comm_below zero zero zero h l = refl
comm_below zero zero (suc b) h l = absurd (omega arith)
comm_below zero (suc a) b h l = absurd (omega arith)
comm_below (suc n) a b h l = omega (
  arith,
  bit_xor_step a b,
  bit_xor_step b a,
  comm_below n (a / 2) (b / 2) (omega arith) (omega arith),
)

pub bit_xor_comm : (a b : ℕ) → bit_xor a b ≡ bit_xor b a
bit_xor_comm a b = comm_below (a + b) a b (omega arith) (omega arith)

assoc_below :
    (n a b c : ℕ) → a ≤ n → b ≤ n → c ≤ n → bit_xor (bit_xor a b) c ≡ bit_xor a (bit_xor b c)
assoc_below zero zero zero zero h l m = refl
assoc_below zero zero zero (suc c) h l m = absurd (omega arith)
assoc_below zero zero (suc b) c h l m = absurd (omega arith)
assoc_below zero (suc a) b c h l m = absurd (omega arith)
assoc_below (suc n) a b c h l m = omega (
  arith,
  bit_xor_step (bit_xor a b) c,
  bit_xor_step a (bit_xor b c),
  bit_xor_step a b,
  bit_xor_step b c,
  ap (λ t. bit_xor t (c / 2)) (half-bit_xor a b),
  ap (λ t. bit_xor (a / 2) t) (half-bit_xor b c),
  assoc_below n (a / 2) (b / 2) (c / 2) (omega arith) (omega arith) (omega arith),
)

pub bit_xor_assoc : (a b c : ℕ) → bit_xor (bit_xor a b) c ≡ bit_xor a (bit_xor b c)
bit_xor_assoc a b c = assoc_below (a + b + c) a b c (omega arith) (omega arith) (omega arith)

self_below : (n a : ℕ) → a ≤ n → bit_xor a a ≡ 0
self_below zero zero h = refl
self_below zero (suc a) h = absurd (omega arith)
self_below (suc n) a h = omega (arith, bit_xor_step a a, self_below n (a / 2) (omega arith))

pub bit_xor_self : (a : ℕ) → bit_xor a a ≡ 0
bit_xor_self a = self_below a a (omega arith)

pub zero-bit_xor : (a : ℕ) → bit_xor 0 a ≡ a
zero-bit_xor a = go a a (omega arith)
  where
    go : (n a : ℕ) → a ≤ n → bit_xor 0 a ≡ a
    go zero zero h = refl
    go zero (suc a) h = absurd (omega arith)
    go (suc n) a h = omega (arith, bit_xor_step 0 a, go n (a / 2) (omega arith))

pub bit_xor-zero : (a : ℕ) → bit_xor a 0 ≡ a
bit_xor-zero a = bit_xor_comm a 0 ∙ zero-bit_xor a

-- What is added twice goes.
pub bit_xor_cancel : (a k : ℕ) → bit_xor (bit_xor a k) k ≡ a
bit_xor_cancel a k = bit_xor_assoc a k k ∙ ap (λ t. bit_xor a t) (bit_xor_self k) ∙ bit_xor-zero a

pub bit_xor_medial :
    (a b c d : ℕ) → bit_xor (bit_xor a b) (bit_xor c d) ≡ bit_xor (bit_xor a c) (bit_xor b d)
bit_xor_medial a b c d =
    bit_xor_assoc a b (bit_xor c d)
    ∙ ap (λ t. bit_xor a t)
        (sym (bit_xor_assoc b c d) ∙ ap (λ t. bit_xor t d) (bit_xor_comm b c) ∙ bit_xor_assoc c b d)
    ∙ sym (bit_xor_assoc a c (bit_xor b d))

pub bit_xor-lt-pow : (k a b : ℕ) → a < 2 ^ k → b < 2 ^ k → bit_xor a b < 2 ^ k
bit_xor-lt-pow zero a b h l = ground (arith, bit_xor_self 0)
bit_xor-lt-pow (suc k) a b h l = omega (
  arith,
  pow-suc 2 k,
  bit_xor_step a b,
  bit_xor-lt-pow k (a / 2) (b / 2) (omega (arith, pow-suc 2 k)) (omega (arith, pow-suc 2 k)),
)
