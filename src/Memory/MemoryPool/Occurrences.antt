-- ===== src/Memory/MemoryPool/Occurrences.antt =====
-- How often a block stands in a list, and that the blocks of a buffer are all different.
use muggle_cc.Base.{
  ℕ, zero, suc, ◌+◌, ◌*◌, ◌%◌, ◌^◌, ◌≤◌, ◌<◌, ◌≡◌, ◌⊎◌, inl, inr, refl, arith, List, [], ◌∷◌, ◌++◌,
  ◌==◌, if◌then◌else◌, ℕ_discrete,
}
use muggle_cc.Memory.MemoryPool.Copying.{blocks}

-- How often a block stands in a list.
unfoldable pub occurrences : ℕ → List ℕ → ℕ
occurrences b [] = 0
occurrences b (x ∷ xs) = (if x == b then 1 else 0) + occurrences b xs

pub occurrences-append :
    (b : ℕ) (xs ys : List ℕ) → occurrences b (xs ++ ys) ≡ occurrences b xs + occurrences b ys
unfolding occurrences
occurrences-append b [] ys = omega arith
occurrences-append b (x ∷ xs) ys = omega (arith, occurrences-append b xs ys)

-- A block of a buffer from its block `i` on is there once, and is one of these blocks.
pub record Within (b n i base block_size : ℕ) : Type 0 where
  pub once : occurrences b (blocks n i base block_size) ≡ 1
  pub index : ℕ
  pub below : index < i + n
  pub address : b ≡ base + index * block_size
  pub above : base + i * block_size ≤ b

pub blocks_once :
    (b n i base block_size : ℕ)
    → 0 < block_size
    → i * block_size + n * block_size < 2 ^ 32
    → (occurrences b (blocks n i base block_size) ≡ 0) ⊎ Within b n i base block_size
unfolding occurrences
blocks_once b zero i base block_size h k = inl refl
blocks_once b (suc n) i base block_size h k =
    let here : i * block_size % 2 ^ 32 ≡ i * block_size = omega (arith, k) in
    let rest = blocks_once b n (suc i) base block_size h (omega (arith, k)) in
    elim (ℕ_discrete (base + i * block_size) b) [
      | yes e ↦ elim rest [
        | inl none_left ↦ inr (record {
          once = ground (arith, e, here, none_left);
          index = i;
          below = omega arith;
          address = omega (arith, e);
          above = omega (arith, e);
        })
        | inr w ↦ absurd (omega (arith, w.above, e, h))
      ]
      | no apart ↦ elim rest [
        | inl none_left ↦ inl (ground (arith, apart, here, none_left))
        | inr w ↦ inr (record {
          once = ground (arith, apart, here, w.once);
          index = w.index;
          below = omega (arith, w.below);
          address = w.address;
          above = omega (arith, w.above);
        })
      ]
    ]
