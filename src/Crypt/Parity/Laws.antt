-- ===== src/Crypt/Parity/Laws.antt =====
-- The tables of parity.c against the number of ones in a byte.
use muggle_cc.Base.{
  all_below, all_below-true, ℕ, zero, suc, ◌+◌, ◌-◌, ◌/◌, ◌%◌, ◌<◌, ◌≡◌, refl, Bool, true, false,
  ◌&&◌, Option, none, some, ◌==◌, arith, Yields, get_elem?,
}
use muggle_cc.Crypt.Parity.{
  s_odd_parity, s_even_parity, parity_entry, parity_check_odd, parity_check_even, parity_set_odd,
  parity_set_even,
}

-- How many of the lowest `n` bits are ones.
abbrev pub ones : ℕ → ℕ → ℕ
ones zero b = 0
ones (suc n) b = b % 2 + ones n (b / 2)

-- The entry has the upper seven bits of the byte, and a number of ones of the parity asked for.
abbrev fits : ℕ → ℕ → ℕ → Bool
fits parity b c = (c / 2 == b / 2) && (ones 8 c % 2 == parity)

abbrev entry_fits : ℕ → ℕ → Option ℕ → Bool
entry_fits parity b none = false
entry_fits parity b (some c) = fits parity b c

-- A byte with the parity asked for.
abbrev pub HasParity : ℕ → ℕ → ℕ → Type 0
HasParity parity b c = (c / 2 ≡ b / 2) × (ones 8 c % 2 ≡ parity)

entry_fits-HasParity :
    (parity b : ℕ) (o : Option ℕ) → entry_fits parity b o ≡ true → Yields o (HasParity parity b)
entry_fits-HasParity parity b none h = absurd cc
entry_fits-HasParity parity b (some c) h = (c, refl, (ground (arith, h), ground (arith, h)))

odd_table : all_below 256 (λ b. entry_fits 1 b (get_elem? s_odd_parity b)) ≡ true
unfolding all_below s_odd_parity
odd_table = refl

even_table : all_below 256 (λ b. entry_fits 0 b (get_elem? s_even_parity b)) ≡ true
unfolding all_below s_even_parity
even_table = refl

-- For a byte, `muggle_parity_set_odd` and `muggle_parity_set_even` return the byte of the same
-- upper seven bits that has an odd, an even number of ones.
pub parity_set-HasParity :
    (b : ℕ)
    → b < 256
    → Yields (parity_set_odd b) (HasParity 1 b) × Yields (parity_set_even b) (HasParity 0 b)
unfolding parity_set_odd parity_set_even
parity_set-HasParity b h = (
  entry_fits-HasParity 1 b (get_elem? s_odd_parity b) (all_below-true 256 _ b odd_table h),
  entry_fits-HasParity 0 b (get_elem? s_even_parity b) (all_below-true 256 _ b even_table h),
)

holds : Option ℕ → ℕ → Bool
holds none x = false
holds (some y) x = y == x

holds-eq : (o : Option ℕ) (x : ℕ) → holds o x ≡ true → o ≡ some x
unfolding holds
holds-eq none x h = absurd cc
holds-eq (some y) x h = ground (arith, h)

check_table :
    all_below 256 (λ b.
      holds (parity_check_odd b) (ones 8 b % 2) && holds (parity_check_even b) (1 - ones 8 b % 2))
    ≡ true
unfolding all_below holds parity_check_odd parity_check_even s_odd_parity s_even_parity
check_table = refl

gen_table :
    all_below 256 (λ b.
      holds (parity_set_odd b) (parity_entry 1 b) && holds (parity_set_even b) (parity_entry 0 b))
    ≡ true
unfolding all_below holds parity_set_odd parity_set_even parity_entry s_odd_parity s_even_parity
gen_table = refl

both : (a b : Bool) → a && b ≡ true → (a ≡ true) × (b ≡ true)
both true true h = (refl, refl)
both true false h = absurd cc
both false b h = absurd cc

-- For a byte, `muggle_parity_check_odd` returns 1 where the number of ones is odd and 0 where it is
-- even, and `muggle_parity_check_even` the other way round.
pub parity_check_counts :
    (b : ℕ)
    → b < 256
    → (parity_check_odd b ≡ some (ones 8 b % 2)) × (parity_check_even b ≡ some (1 - ones 8 b % 2))
parity_check_counts b h =
    let (odd, even) = both _ _ (all_below-true 256 _ b check_table h) in
    (holds-eq (parity_check_odd b) _ odd, holds-eq (parity_check_even b) _ even)

-- For a byte, the tables hold what `muggle_parity_gen` prints for it.
pub tables-eq-gen :
    (b : ℕ)
    → b < 256
    → (parity_set_odd b ≡ some (parity_entry 1 b)) × (parity_set_even b ≡ some (parity_entry 0 b))
tables-eq-gen b h =
    let (odd, even) = both _ _ (all_below-true 256 _ b gen_table h) in
    (holds-eq (parity_set_odd b) _ odd, holds-eq (parity_set_even b) _ even)
