-- ===== src/Crypt/Des/Schedule.antt =====
-- The two key schedules are one another's reverse, whatever stood in the context before.
use mathlib.Core.List.{reverse}
use muggle_cc.Base.{ℕ, ◌≡◌, refl, sym, ap, ◌∙◌, arith, List, [], ◌∷◌, length}
use muggle_cc.Crypt.InternalDes.{Block, Subkey, des_pc1, des_pc2}
use muggle_cc.Crypt.Des.{key_rounds, shift_block, schedule_loop, des_set_key_inner, block_of_bytes}

-- The subkeys in the order of the rounds.
round_keys : List (ℕ × ℕ) → Block → List Subkey
round_keys [] out = []
round_keys ((shift, mask) ∷ rounds) out =
    let out' = shift_block out shift mask in des_pc2 out' ∷ round_keys rounds out'

encrypt_order :
    (sk : List Subkey) (out : Block)
    → length sk ≡ 16
    → schedule_loop 1 key_rounds 0 out sk ≡ round_keys key_rounds out
unfolding schedule_loop round_keys
encrypt_order
      (k0 ∷ k1 ∷ k2 ∷ k3 ∷ k4 ∷ k5 ∷ k6 ∷ k7 ∷ k8 ∷ k9 ∷ k10 ∷ k11 ∷ k12 ∷ k13 ∷ k14 ∷ k15 ∷ []) out
      h =
    refl
encrypt_order sk out h = absurd (omega arith)

decrypt_order :
    (sk : List Subkey) (out : Block)
    → length sk ≡ 16
    → schedule_loop 0 key_rounds 0 out sk ≡ reverse (round_keys key_rounds out)
unfolding schedule_loop round_keys
decrypt_order
      (k0 ∷ k1 ∷ k2 ∷ k3 ∷ k4 ∷ k5 ∷ k6 ∷ k7 ∷ k8 ∷ k9 ∷ k10 ∷ k11 ∷ k12 ∷ k13 ∷ k14 ∷ k15 ∷ []) out
      h =
    refl
decrypt_order sk out h = absurd (omega arith)

pub des_set_key_inner-reverse :
    (key : List ℕ) (sk sk' : List Subkey)
    → length sk ≡ 16
    → length sk' ≡ 16
    → des_set_key_inner 0 key sk' ≡ reverse (des_set_key_inner 1 key sk)
unfolding des_set_key_inner
des_set_key_inner-reverse key sk sk' h l =
    let out = des_pc1 (block_of_bytes key) in
    decrypt_order sk' out l ∙ ap reverse (sym (encrypt_order sk out h))

pub des_set_key_inner_same :
    (key : List ℕ) (sk sk' : List Subkey)
    → length sk ≡ 16
    → length sk' ≡ 16
    → des_set_key_inner 1 key sk' ≡ des_set_key_inner 1 key sk
unfolding des_set_key_inner
des_set_key_inner_same key sk sk' h l =
    let out = des_pc1 (block_of_bytes key) in encrypt_order sk' out l ∙ sym (encrypt_order sk out h)
