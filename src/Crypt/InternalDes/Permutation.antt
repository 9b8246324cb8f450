-- ===== src/Crypt/InternalDes/Permutation.antt =====
-- The initial and the final permutation undo one another.
use muggle_cc.Base.{
  ℕ, ◌+◌, ◌-◌, ◌^◌, ◌<◌, ◌≡◌, refl, ap, ◌∙◌, arith, true, if◌then◌else◌, ◌==◌, ltb, ltb→lt, ==_iff,
  List, length, get_or, all_below, all_below-true, inl, inr, le-or-gt,
}
use muggle_cc.Bits.Digit.{bit, bit-add-pow, bit_ext}
use muggle_cc.Bits.Move.{move_bits, consecutive, sources, bit-move_bits, move_bits-lt-pow}
use muggle_cc.Crypt.InternalDes.{Block, Subkey, u64, permute, des_p, des_f, des_ip, des_fp}
use muggle_cc.Crypt.InternalDes.Tables.{des_ip_l, des_ip_h, des_fp_l, des_fp_h, des_p_table}

-- Both are 32-bit words.
pub record IsBlock (b : Block) : Type 0 where
  pub low : b.l < 2 ^ 32
  pub high : b.h < 2 ^ 32

u64-lt : (b : Block) → IsBlock b → u64 b < 2 ^ 64
u64-lt b v = omega (arith, v.low, v.high)

bit-u64 :
    (b : Block) (j : ℕ)
    → IsBlock b
    → bit (u64 b) j ≡ (if ltb j 32 then bit b.l j else bit b.h (j - 32))
bit-u64 b j v = bit-add-pow 32 b.l b.h j v.low

-- Blocks of the same 64 bits are the same.
Block_ext :
    (a b : Block)
    → IsBlock a
    → IsBlock b
    → ((j : ℕ) → j < 64 → bit (u64 a) j ≡ bit (u64 b) j)
    → a ≡ b
Block_ext a b v w same =
    let whole : u64 a ≡ u64 b = bit_ext 64 (u64 a) (u64 b) (u64-lt a v) (u64-lt b w) same in
    let low : a.l ≡ b.l = omega (arith, whole, v.low, w.low) in
    let high : a.h ≡ b.h = omega (arith, whole, v.low, w.low) in cc

-- A table names a target for each of the 32 bits, in order.
record IsTable (m : List (ℕ × ℕ)) : Type 0 where
  in_order : consecutive 0 m ≡ true
  full : length m ≡ 32

-- Where the bits of a permuted block come from.
abbrev pick : List (ℕ × ℕ) → List (ℕ × ℕ) → ℕ → ℕ
pick low high j = if ltb j 32 then get_or (sources low) j 0 else get_or (sources high) (j - 32) 0

module _ (low high : List (ℕ × ℕ)) (v : IsTable low) (w : IsTable high) where
  permute-IsBlock : (b : Block) → IsBlock (permute low high b)
  unfolding permute
  permute-IsBlock b = record {
    low = move_bits-lt-pow 32 0 (u64 b) low v.in_order (omega (arith, v.full));
    high = move_bits-lt-pow 32 0 (u64 b) high w.in_order (omega (arith, w.full));
  }

  bit-permute :
      (b : Block) (j : ℕ)
      → j < 64
      → bit (u64 (permute low high b)) j ≡ bit (u64 b) (pick low high j)
  unfolding permute
  bit-permute b j lt = elim (le-or-gt 32 j) [
    | inr below ↦ ground (
      arith,
      bit-u64 (permute low high b) j (permute-IsBlock b),
      ap (λ k. bit (move_bits (u64 b) low) k) (zero-add j),
      bit-move_bits 0 (u64 b) low j v.in_order,
      v.full,
    )
    | inl above ↦ ground (
      arith,
      bit-u64 (permute low high b) j (permute-IsBlock b),
      ap (λ k. bit (move_bits (u64 b) high) k) (zero-add (j - 32)),
      bit-move_bits 0 (u64 b) high (j - 32) w.in_order,
      w.full,
    )
  ]
    where
      zero-add : (k : ℕ) → 0 + k ≡ k
      zero-add k = omega arith

-- Two permutations of which the second puts every bit back where the first took it from.
module _ (low1 high1 low2 high2 : List (ℕ × ℕ)) (v1 : IsTable low1) (w1 : IsTable high1)
    (v2 : IsTable low2) (w2 : IsTable high2)
    (inside : all_below 64 (λ j. ltb (pick low2 high2 j) 64) ≡ true)
    (back : all_below 64 (λ j. pick low1 high1 (pick low2 high2 j) == j) ≡ true) where
  permute-permute : (b : Block) → IsBlock b → permute low2 high2 (permute low1 high1 b) ≡ b
  permute-permute b v =
      let b' = permute low1 high1 b in
      Block_ext (permute low2 high2 b') b (permute-IsBlock low2 high2 v2 w2 b') v (λ j lt.
        let home : pick low1 high1 (pick low2 high2 j) ≡ j =
          (==_iff _ j).0 (all_below-true 64 _ j back lt) in
        bit-permute low2 high2 v2 w2 b' j lt
        ∙ bit-permute low1 high1 v1 w1 b (pick low2 high2 j)
            (ltb→lt _ 64 (all_below-true 64 _ j inside lt))
        ∙ ap (bit (u64 b)) home)

ip_l-IsTable : IsTable des_ip_l
unfolding des_ip_l
ip_l-IsTable = record { in_order = refl; full = refl }

ip_h-IsTable : IsTable des_ip_h
unfolding des_ip_h
ip_h-IsTable = record { in_order = refl; full = refl }

fp_l-IsTable : IsTable des_fp_l
unfolding des_fp_l
fp_l-IsTable = record { in_order = refl; full = refl }

fp_h-IsTable : IsTable des_fp_h
unfolding des_fp_h
fp_h-IsTable = record { in_order = refl; full = refl }

pub des_ip-IsBlock : (b : Block) → IsBlock (des_ip b)
unfolding des_ip
des_ip-IsBlock b = permute-IsBlock des_ip_l des_ip_h ip_l-IsTable ip_h-IsTable b

pub des_fp-IsBlock : (b : Block) → IsBlock (des_fp b)
unfolding des_fp
des_fp-IsBlock b = permute-IsBlock des_fp_l des_fp_h fp_l-IsTable fp_h-IsTable b

abbrev PicksInside : List (ℕ × ℕ) → List (ℕ × ℕ) → Type 0
PicksInside low high = all_below 64 (λ j. ltb (pick low high j) 64) ≡ true

abbrev PicksBack : (low1 high1 low2 high2 : List (ℕ × ℕ)) → Type 0
PicksBack low1 high1 low2 high2 =
    all_below 64 (λ j. pick low1 high1 (pick low2 high2 j) == j) ≡ true

ip_inside : PicksInside des_ip_l des_ip_h
unfolding all_below des_ip_l des_ip_h
ip_inside = refl

fp_inside : PicksInside des_fp_l des_fp_h
unfolding all_below des_fp_l des_fp_h
fp_inside = refl

fp-ip_back : PicksBack des_ip_l des_ip_h des_fp_l des_fp_h
unfolding all_below des_ip_l des_ip_h des_fp_l des_fp_h
fp-ip_back = refl

ip-fp_back : PicksBack des_fp_l des_fp_h des_ip_l des_ip_h
unfolding all_below des_ip_l des_ip_h des_fp_l des_fp_h
ip-fp_back = refl

pub des_fp-des_ip : (b : Block) → IsBlock b → des_fp (des_ip b) ≡ b
unfolding des_fp des_ip
des_fp-des_ip b v =
    permute-permute des_ip_l des_ip_h des_fp_l des_fp_h ip_l-IsTable ip_h-IsTable fp_l-IsTable
      fp_h-IsTable fp_inside fp-ip_back b v

pub des_ip-des_fp : (b : Block) → IsBlock b → des_ip (des_fp b) ≡ b
unfolding des_fp des_ip
des_ip-des_fp b v =
    permute-permute des_fp_l des_fp_h des_ip_l des_ip_h fp_l-IsTable fp_h-IsTable ip_l-IsTable
      ip_h-IsTable ip_inside ip-fp_back b v

p_in_order : consecutive 0 des_p_table ≡ true
unfolding des_p_table
p_in_order = refl

p_full : length des_p_table ≡ 32
unfolding des_p_table
p_full = refl

pub des_p-lt : (u32 : ℕ) → des_p u32 < 2 ^ 32
unfolding des_p
des_p-lt u32 = move_bits-lt-pow 32 0 u32 des_p_table p_in_order (omega (arith, p_full))

pub des_f-lt : (u32 : ℕ) (sk : Subkey) → des_f u32 sk < 2 ^ 32
unfolding des_f
des_f-lt u32 sk = des_p-lt _
