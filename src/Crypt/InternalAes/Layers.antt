-- ===== src/Crypt/InternalAes/Layers.antt =====
-- The other layers of a round undo themselves, and keep the state 16 bytes.
use muggle_cc.Base.{
  ℕ, suc, ◌<◌, ◌≡◌, refl, ap, ◌∙◌, arith, true, ◌==◌, ==_iff, ltb, ltb→lt, List, [], ◌∷◌, map,
  length, all_below, all_below-true, bit_xor,
}
use muggle_cc.Bits.Bytes.{AreBytes}
use muggle_cc.Bits.Xor.{bit_xor_cancel, bit_xor-lt-pow}
use muggle_cc.Crypt.Modes.Laws.{IsBytes}
use muggle_cc.Crypt.InternalAes.{
  at, key_byte, s_muggle_aes_sbox, s_muggle_aes_inv_sbox, s_muggle_aes_mix_column,
  aes_add_round_key, aes_sub_bytes, aes_inv_sub_bytes, aes_shift_rows, aes_inv_shift_rows,
  aes_mix_column,
}
use muggle_cc.Crypt.InternalAes.Columns.{length-mix_loop, mix_loop-AreBytes}

sbox_table : all_below 256 (λ b. at s_muggle_aes_inv_sbox (at s_muggle_aes_sbox b) == b) ≡ true
unfolding all_below s_muggle_aes_sbox s_muggle_aes_inv_sbox
sbox_table = refl

sbox_bytes : all_below 256 (λ b. ltb (at s_muggle_aes_sbox b) 256) ≡ true
unfolding all_below s_muggle_aes_sbox
sbox_bytes = refl

substitute-AreBytes : (s : List ℕ) → AreBytes s → AreBytes (map (λ b. at s_muggle_aes_sbox b) s)
substitute-AreBytes [] h = tt
substitute-AreBytes (b ∷ s) h =
    (ltb→lt _ 256 (all_below-true 256 _ b sbox_bytes h.0), substitute-AreBytes s h.1)

length-substitute : (s : List ℕ) → length (map (λ b. at s_muggle_aes_sbox b) s) ≡ length s
length-substitute [] = refl
length-substitute (b ∷ s) = ap suc (length-substitute s)

pub aes_sub_bytes-IsBytes : (s : List ℕ) → IsBytes 16 s → IsBytes 16 (aes_sub_bytes s)
unfolding aes_sub_bytes
aes_sub_bytes-IsBytes s h = (length-substitute s ∙ h.0, substitute-AreBytes s h.1)

pub aes_inv_sub_bytes-aes_sub_bytes :
    (s : List ℕ) → AreBytes s → aes_inv_sub_bytes (aes_sub_bytes s) ≡ s
unfolding aes_inv_sub_bytes aes_sub_bytes
aes_inv_sub_bytes-aes_sub_bytes [] h = refl
aes_inv_sub_bytes-aes_sub_bytes (b ∷ s) h =
    cc (
      (==_iff _ b).0 (all_below-true 256 _ b sbox_table h.0),
      aes_inv_sub_bytes-aes_sub_bytes s h.1,
    )

pub aes_inv_shift_rows-aes_shift_rows :
    (s : List ℕ) → length s ≡ 16 → aes_inv_shift_rows (aes_shift_rows s) ≡ s
unfolding aes_inv_shift_rows aes_shift_rows
aes_inv_shift_rows-aes_shift_rows
      (s0 ∷ s1 ∷ s2 ∷ s3 ∷ s4 ∷ s5 ∷ s6 ∷ s7 ∷ s8 ∷ s9 ∷ s10 ∷ s11 ∷ s12 ∷ s13 ∷ s14 ∷ s15 ∷ []) h =
    refl
aes_inv_shift_rows-aes_shift_rows s h = absurd (omega arith)

pub aes_shift_rows-IsBytes : (s : List ℕ) → IsBytes 16 s → IsBytes 16 (aes_shift_rows s)
unfolding aes_shift_rows
aes_shift_rows-IsBytes
      (s0 ∷ s1 ∷ s2 ∷ s3 ∷ s4 ∷ s5 ∷ s6 ∷ s7 ∷ s8 ∷ s9 ∷ s10 ∷ s11 ∷ s12 ∷ s13 ∷ s14 ∷ s15 ∷ []) h =
    omega arith
aes_shift_rows-IsBytes s h = absurd (omega (arith, h.0))

pub aes_mix_column-IsBytes : (s : List ℕ) → IsBytes 16 s → IsBytes 16 (aes_mix_column s)
unfolding aes_mix_column
aes_mix_column-IsBytes s h = (
  length-mix_loop 16 0 s_muggle_aes_mix_column s,
  mix_loop-AreBytes 16 0 s_muggle_aes_mix_column s h.1,
)

pub aes_add_round_key-aes_add_round_key :
    (s rd_key : List ℕ) → length s ≡ 16 → aes_add_round_key (aes_add_round_key s rd_key) rd_key ≡ s
unfolding aes_add_round_key
aes_add_round_key-aes_add_round_key
      (s0 ∷ s1 ∷ s2 ∷ s3 ∷ s4 ∷ s5 ∷ s6 ∷ s7 ∷ s8 ∷ s9 ∷ s10 ∷ s11 ∷ s12 ∷ s13 ∷ s14 ∷ s15 ∷ [])
      rd_key h =
    simp bit_xor_cancel
aes_add_round_key-aes_add_round_key s rd_key h = absurd (omega arith)

add-lt : (b w shift : ℕ) → b < 256 → bit_xor b (key_byte w shift) < 256
add-lt b w shift h = bit_xor-lt-pow 8 b (key_byte w shift) h (omega arith)

pub aes_add_round_key-IsBytes :
    (s rd_key : List ℕ) → IsBytes 16 s → IsBytes 16 (aes_add_round_key s rd_key)
unfolding aes_add_round_key
aes_add_round_key-IsBytes
      (s0 ∷ s1 ∷ s2 ∷ s3 ∷ s4 ∷ s5 ∷ s6 ∷ s7 ∷ s8 ∷ s9 ∷ s10 ∷ s11 ∷ s12 ∷ s13 ∷ s14 ∷ s15 ∷ [])
      rd_key h =
    (
      refl,
      (
        add-lt s0 _ 24 h.1.0,
        (
          add-lt s1 _ 24 h.1.1.0,
          (
            add-lt s2 _ 24 h.1.1.1.0,
            (
              add-lt s3 _ 24 h.1.1.1.1.0,
              (
                add-lt s4 _ 16 h.1.1.1.1.1.0,
                (
                  add-lt s5 _ 16 h.1.1.1.1.1.1.0,
                  (
                    add-lt s6 _ 16 h.1.1.1.1.1.1.1.0,
                    (
                      add-lt s7 _ 16 h.1.1.1.1.1.1.1.1.0,
                      (
                        add-lt s8 _ 8 h.1.1.1.1.1.1.1.1.1.0,
                        (
                          add-lt s9 _ 8 h.1.1.1.1.1.1.1.1.1.1.0,
                          (
                            add-lt s10 _ 8 h.1.1.1.1.1.1.1.1.1.1.1.0,
                            (
                              add-lt s11 _ 8 h.1.1.1.1.1.1.1.1.1.1.1.1.0,
                              (
                                add-lt s12 _ 0 h.1.1.1.1.1.1.1.1.1.1.1.1.1.0,
                                (
                                  add-lt s13 _ 0 h.1.1.1.1.1.1.1.1.1.1.1.1.1.1.0,
                                  (
                                    add-lt s14 _ 0 h.1.1.1.1.1.1.1.1.1.1.1.1.1.1.1.0,
                                    (add-lt s15 _ 0 h.1.1.1.1.1.1.1.1.1.1.1.1.1.1.1.1.0, tt),
                                  ),
                                ),
                              ),
                            ),
                          ),
                        ),
                      ),
                    ),
                  ),
                ),
              ),
            ),
          ),
        ),
      ),
    )
aes_add_round_key-IsBytes s rd_key h = absurd (omega (arith, h.0))
