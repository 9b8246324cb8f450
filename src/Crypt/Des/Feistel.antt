-- ===== src/Crypt/Des/Feistel.antt =====
-- The rounds of DES run backwards with the subkeys in reverse order, whatever the round function.
use mathlib.Core.List.{reverse, reverse-cons}
use muggle_cc.Base.{◌≡◌, refl, ap, ◌∙◌, List, [], ◌∷◌, ◌++◌}
use muggle_cc.Bits.Xor.{bit_xor_cancel, bit_xor-lt-pow}
use muggle_cc.Crypt.InternalDes.{Block, Subkey, des_f, des_ip, des_fp}
use muggle_cc.Crypt.InternalDes.Permutation.{
  IsBlock, des_ip-IsBlock, des_fp-IsBlock, des_fp-des_ip, des_ip-des_fp, des_f-lt,
}
use muggle_cc.Crypt.Des.{round, feistel_loop, exchange, des_crypt}

pub exchange-exchange : (b : Block) → exchange (exchange b) ≡ b
unfolding exchange
exchange-exchange b = refl

-- A round with the halves exchanged undoes the round.
round-exchange : (b : Block) (k : Subkey) → round (exchange (round b k)) k ≡ exchange b
unfolding round exchange
round-exchange b k = cc (bit_xor_cancel b.l (des_f b.h k))

pub feistel_loop-append :
    (xs ys : List Subkey) (b : Block)
    → feistel_loop (xs ++ ys) b ≡ feistel_loop ys (feistel_loop xs b)
unfolding feistel_loop
feistel_loop-append [] ys b = refl
feistel_loop-append (k ∷ xs) ys b = feistel_loop-append xs ys (round b k)

pub feistel_loop-reverse :
    (ks : List Subkey) (b : Block)
    → feistel_loop (reverse ks) (exchange (feistel_loop ks b)) ≡ exchange b
unfolding feistel_loop
feistel_loop-reverse [] b = refl
feistel_loop-reverse (k ∷ ks) b =
    let end = exchange (feistel_loop ks (round b k)) in
    ap (λ t. feistel_loop t end) (reverse-cons k ks)
    ∙ feistel_loop-append (reverse ks) (k ∷ []) end
    ∙ ap (λ t. round t k) (feistel_loop-reverse ks (round b k))
    ∙ round-exchange b k

pub exchange-IsBlock : (b : Block) → IsBlock b → IsBlock (exchange b)
unfolding exchange
exchange-IsBlock b v = record { low = v.high; high = v.low }

pub feistel_loop-IsBlock : (ks : List Subkey) (b : Block) → IsBlock b → IsBlock (feistel_loop ks b)
unfolding feistel_loop
feistel_loop-IsBlock [] b v = v
feistel_loop-IsBlock (k ∷ ks) b v = feistel_loop-IsBlock ks (round b k) (
    unfold round in
    record { low = v.high; high = bit_xor-lt-pow 32 b.l (des_f b.h k) v.low (des_f-lt b.h k) })

pub des_crypt-IsBlock : (ks : List Subkey) (b : Block) → IsBlock (des_crypt ks b)
unfolding des_crypt
des_crypt-IsBlock ks b = des_fp-IsBlock (exchange (feistel_loop ks (des_ip b)))

-- `muggle_des_crypt` with the subkeys in reverse order undoes `muggle_des_crypt`, on every block and
-- for all subkeys.
pub des_crypt-des_crypt :
    (ks : List Subkey) (b : Block) → IsBlock b → des_crypt (reverse ks) (des_crypt ks b) ≡ b
unfolding des_crypt
des_crypt-des_crypt ks b v =
    let start = des_ip b in
    let end = feistel_loop ks start in
    let end_IsBlock = exchange-IsBlock end (feistel_loop-IsBlock ks start (des_ip-IsBlock b)) in
    ap (λ t. des_fp (exchange (feistel_loop (reverse ks) t)))
      (des_ip-des_fp (exchange end) end_IsBlock)
    ∙ ap (λ t. des_fp (exchange t)) (feistel_loop-reverse ks start)
    ∙ ap des_fp (exchange-exchange start)
    ∙ des_fp-des_ip b v
