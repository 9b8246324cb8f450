-- ===== src/Crypt/InternalDes.antt =====
-- muggle/c/crypt/internal/internal_des.c: the parts of DES. A word is a number; a block is its two
-- 32-bit words, the lower one first, as on a little-endian machine; a subkey is its eight bytes.
pub mod Tables
pub mod Permutation
use muggle_cc.Base.{
  ℕ, ◌+◌, ◌-◌, ◌*◌, ◌/◌, ◌%◌, ◌^◌, List, [], ◌∷◌, get_or, bit_and, bit_or, bit_xor,
}
use muggle_cc.Crypt.InternalDes.Tables.{
  des_ip_l, des_ip_h, des_fp_l, des_fp_h, des_p_table, des_pc1_l, des_pc1_h,
  s_muggle_des_sbox_table,
}
use muggle_cc.Bits.Move.{move_bits}

pub record Block : Type 0 where
  pub l : ℕ
  pub h : ℕ

-- The union's `u64`.
abbrev pub u64 : Block → ℕ
u64 b = b.l + b.h * 2 ^ 32

abbrev pub Subkey : Type 0
Subkey = List ℕ

-- The permutation of a block by the tables of its two words.
unfoldable pub permute : List (ℕ × ℕ) → List (ℕ × ℕ) → Block → Block
unfolding move_bits
permute low high b = record { l = move_bits (u64 b) low; h = move_bits (u64 b) high }

unfoldable pub des_ip : Block → Block
unfolding permute des_ip_l des_ip_h
des_ip b = permute des_ip_l des_ip_h b

unfoldable pub des_fp : Block → Block
unfolding permute des_fp_l des_fp_h
des_fp b = permute des_fp_l des_fp_h b

unfoldable pub des_expand : ℕ → Subkey
des_expand u32 =
    (bit_or (u32 / 2 ^ 31 % 2) (u32 * 2 % 2 ^ 32) % 256)
    ∷ (u32 / 2 ^ 3 % 256)
    ∷ (u32 / 2 ^ 7 % 256)
    ∷ (u32 / 2 ^ 11 % 256)
    ∷ (u32 / 2 ^ 15 % 256)
    ∷ (u32 / 2 ^ 19 % 256)
    ∷ (u32 / 2 ^ 23 % 256)
    ∷ (bit_or (bit_and (u32 / 2 ^ 27) 31) (u32 * 2 ^ 5 % 2 ^ 32) % 256)
    ∷ []

-- The body of the loop of `muggle_des_sbox`.
unfoldable pub sbox_entry : List ℕ → ℕ → ℕ
sbox_entry box b =
    get_or box (bit_or (bit_or (bit_and b 32) (bit_and b 1 * 2 ^ 4)) (bit_and (b / 2) 15)) 0

unfoldable pub sbox_loop : List (List ℕ) → Subkey → Subkey
unfolding sbox_entry
sbox_loop [] bytes = []
sbox_loop (box ∷ boxes) [] = []
sbox_loop (box ∷ boxes) (b ∷ bytes) = sbox_entry box b ∷ sbox_loop boxes bytes

unfoldable pub des_sbox : Subkey → Subkey
unfolding sbox_loop s_muggle_des_sbox_table
des_sbox bytes = sbox_loop s_muggle_des_sbox_table bytes

unfoldable pub des_p : ℕ → ℕ
unfolding move_bits des_p_table
des_p u32 = move_bits u32 des_p_table

-- `p.bytes[i] ^ sk->bytes[i]`
unfoldable pub xor_subkey : Subkey → Subkey → Subkey
xor_subkey [] sk = []
xor_subkey (b ∷ p) [] = b ∷ p
xor_subkey (b ∷ p) (k ∷ sk) = bit_xor b k ∷ xor_subkey p sk

-- `(p.bytes[i] & 0x0f) | ((p.bytes[i + 1] << 4) & 0xf0)`
abbrev pub nibbles : Subkey → ℕ → ℕ
nibbles p i = bit_or (bit_and (get_or p i 0) 15) (bit_and (get_or p (i + 1) 0 * 2 ^ 4) 240)

unfoldable pub des_f : ℕ → Subkey → ℕ
unfolding des_expand xor_subkey des_sbox des_p
des_f u32 sk =
    let p = des_sbox (xor_subkey (des_expand u32) sk) in
    des_p (nibbles p 0 + nibbles p 2 * 2 ^ 8 + nibbles p 4 * 2 ^ 16 + nibbles p 6 * 2 ^ 24)

unfoldable pub des_pc1 : Block → Block
unfolding permute des_pc1_l des_pc1_h
des_pc1 b = permute des_pc1_l des_pc1_h b

-- The lower four bytes are from the lower word. The last entry of each of the other four moves to
-- bit 4, as the source has it.
unfoldable pub des_pc2 : Block → Subkey
unfolding move_bits
des_pc2 k =
    move_bits k.l ((13, 0) ∷ (16, 1) ∷ (10, 2) ∷ (23, 3) ∷ (0, 4) ∷ (4, 5) ∷ [])
    ∷ move_bits k.l ((2, 0) ∷ (27, 1) ∷ (14, 2) ∷ (5, 3) ∷ (20, 4) ∷ (9, 5) ∷ [])
    ∷ move_bits k.l ((22, 0) ∷ (18, 1) ∷ (11, 2) ∷ (3, 3) ∷ (25, 4) ∷ (7, 5) ∷ [])
    ∷ move_bits k.l ((15, 0) ∷ (6, 1) ∷ (26, 2) ∷ (19, 3) ∷ (12, 4) ∷ (1, 5) ∷ [])
    ∷ move_bits k.h ((12, 0) ∷ (23, 1) ∷ (2, 2) ∷ (8, 3) ∷ (18, 4) ∷ (26, 4) ∷ [])
    ∷ move_bits k.h ((1, 0) ∷ (11, 1) ∷ (22, 2) ∷ (16, 3) ∷ (4, 4) ∷ (19, 4) ∷ [])
    ∷ move_bits k.h ((15, 0) ∷ (20, 1) ∷ (10, 2) ∷ (27, 3) ∷ (5, 4) ∷ (24, 4) ∷ [])
    ∷ move_bits k.h ((17, 0) ∷ (13, 1) ∷ (21, 2) ∷ (7, 3) ∷ (0, 4) ∷ (3, 4) ∷ [])
    ∷ []
