-- ===== src/Bits/Move.antt =====
-- Tables of bits to move, as MUGGLE_MOVE_BIT moves them: from a place, to a place.
use muggle_cc.Base.{
  ℕ, zero, suc, ◌+◌, ◌*◌, ◌/◌, ◌%◌, ◌^◌, ◌≤◌, ◌<◌, ◌≡◌, ap, arith, bit_or, Bool, true, ◌&&◌,
  if◌then◌else◌, ◌==◌, List, [], ◌∷◌, length, get_or,
}
use muggle_cc.Bits.Digit.{bit, bit-zero, bit-bit_or, bit-eq-shift, bit-mul-pow, bit_or-lt-pow}
use native.Mathlib.Nat.{pow-suc, one-le-pow, pow-le-pow_right}

-- `((in) >> from) & 0x01) << (to)`
abbrev pub move_bit : ℕ → ℕ → ℕ → ℕ
move_bit x from to = x / 2 ^ from % 2 * 2 ^ to

-- The disjunction of the moved bits.
unfoldable pub move_bits : ℕ → List (ℕ × ℕ) → ℕ
move_bits x [] = 0
move_bits x ((from, to) ∷ m) = bit_or (move_bit x from to) (move_bits x m)

-- The targets are `k`, `k + 1` and so on.
abbrev pub consecutive : ℕ → List (ℕ × ℕ) → Bool
consecutive k [] = true
consecutive k ((from, to) ∷ m) = (to == k) && consecutive (suc k) m

abbrev pub sources : List (ℕ × ℕ) → List ℕ
sources [] = []
sources ((from, to) ∷ m) = from ∷ sources m

bit-move_bit : (x from to j : ℕ) → bit (move_bit x from to) j ≡ (if j == to then bit x from else 0)
bit-move_bit x from to j = ground (arith, bit-mul-pow (x / 2 ^ from % 2) to j, bit-eq-shift x from)

bit-move_bits_below :
    (k x : ℕ) (m : List (ℕ × ℕ)) (j : ℕ)
    → consecutive k m ≡ true
    → j < k
    → bit (move_bits x m) j ≡ 0
unfolding move_bits
bit-move_bits_below k x [] j h lt = bit-zero j
bit-move_bits_below k x ((from, to) ∷ m) j h lt = ground (
  arith,
  bit-bit_or j (move_bit x from to) (move_bits x m),
  bit-move_bit x from to j,
  bit-move_bits_below (suc k) x m j,
)

-- Each target holds the bit of its source.
pub bit-move_bits :
    (k x : ℕ) (m : List (ℕ × ℕ)) (i : ℕ)
    → consecutive k m ≡ true
    → i < length m
    → bit (move_bits x m) (k + i) ≡ bit x (get_or (sources m) i 0)
unfolding move_bits
bit-move_bits k x [] i h lt = absurd (omega arith)
bit-move_bits k x ((from, to) ∷ m) zero h lt =
    let here : k + 0 ≡ k = omega arith in
    ground (
      arith,
      ap (λ j. bit (bit_or (move_bit x from to) (move_bits x m)) j) here,
      bit-bit_or k (move_bit x from to) (move_bits x m),
      bit-move_bit x from to k,
      bit-move_bits_below (suc k) x m k,
    )
bit-move_bits k x ((from, to) ∷ m) (suc i) h lt =
    let next : k + suc i ≡ suc k + i = omega arith in
    ground (
      arith,
      ap (λ j. bit (bit_or (move_bit x from to) (move_bits x m)) j) next,
      bit-bit_or (suc k + i) (move_bit x from to) (move_bits x m),
      bit-move_bit x from to (suc k + i),
      bit-move_bits (suc k) x m i,
    )

times_bit : (b p : ℕ) → b ≤ 1 → b * p ≤ p
times_bit zero p h = omega arith
times_bit (suc zero) p h = omega arith
times_bit (suc (suc b)) p h = absurd (omega arith)

move_bit-lt-pow : (n x from to : ℕ) → to < n → move_bit x from to < 2 ^ n
move_bit-lt-pow n x from to h = omega (
  arith,
  times_bit (x / 2 ^ from % 2) (2 ^ to) (omega arith),
  pow-suc 2 to,
  one-le-pow to 2 (omega arith),
  pow-le-pow_right {n = 2} (omega arith) {i = suc to} {j = n} h,
)

pub move_bits-lt-pow :
    (n k x : ℕ) (m : List (ℕ × ℕ))
    → consecutive k m ≡ true
    → k + length m ≤ n
    → move_bits x m < 2 ^ n
unfolding move_bits
move_bits-lt-pow n k x [] h le = one-le-pow n 2 (omega arith)
move_bits-lt-pow n k x ((from, to) ∷ m) h le =
    bit_or-lt-pow n (move_bit x from to) (move_bits x m)
      (move_bit-lt-pow n x from to (ground arith))
      (move_bits-lt-pow n (suc k) x m (ground arith) (omega arith))
