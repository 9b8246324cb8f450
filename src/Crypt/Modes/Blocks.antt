-- ===== src/Crypt/Modes/Blocks.antt =====
-- The block modes undo themselves.
use muggle_cc.Base.{
  ℕ, zero, suc, ◌+◌, ◌*◌, ◌≡◌, refl, sym, ap, ◌∙◌, arith, List, [], ◌∷◌, ◌++◌, length, take, drop,
  length-take, length-drop, length-append, take-append_le, drop-append_le, take-append-drop,
  take_all, drop_all,
}
use muggle_cc.Bits.Bytes.{AreBytes}
use muggle_cc.Crypt.Modes.{xor_block, ecb_loop, cbc_encrypt_loop, cbc_decrypt_loop}
use muggle_cc.Crypt.Modes.Laws.{
  IsBytes, Undoes, length-xor_block, xor_block-AreBytes, xor_block_cancel, take-AreBytes,
  drop-AreBytes,
}

-- The first block of a text and the rest.
take-append_block : (size : ℕ) (a b : List ℕ) → length a ≡ size → take size (a ++ b) ≡ a
take-append_block size a b h = take-append_le size a b (omega arith) ∙ take_all size a (omega arith)

drop-append_block : (size : ℕ) (a b : List ℕ) → length a ≡ size → drop size (a ++ b) ≡ b
drop-append_block size a b h =
    drop-append_le size a b (omega arith) ∙ ap (λ c. c ++ b) (drop_all size a (omega arith))

suc-mul : (n size : ℕ) → suc n * size ≡ n * size + size
suc-mul n size = grind arith

module _ (size : ℕ) (enc dec : List ℕ → List ℕ) (v : Undoes size enc dec) where
  take-IsBytes :
      (n : ℕ) (input : List ℕ)
      → length input ≡ suc n * size
      → AreBytes input
      → IsBytes size (take size input)
  take-IsBytes n input h bytes =
      (omega (arith, length-take size input, suc-mul n size), take-AreBytes size input bytes)

  length-rest :
      (n : ℕ) (input : List ℕ) → length input ≡ suc n * size → length (drop size input) ≡ n * size
  length-rest n input h = omega (arith, length-drop size input, suc-mul n size)

  pub ecb_loop-ecb_loop :
      (n : ℕ) (input : List ℕ)
      → length input ≡ n * size
      → AreBytes input
      → ecb_loop size dec n (ecb_loop size enc n input) ≡ input
  unfolding ecb_loop
  ecb_loop-ecb_loop zero [] h bytes = refl
  ecb_loop-ecb_loop zero (x ∷ input) h bytes = absurd (omega arith)
  ecb_loop-ecb_loop (suc n) input h bytes =
      let block = take-IsBytes n input h bytes in
      let c = enc (take size input) in
      let rest = ecb_loop size enc n (drop size input) in
      let size_c = (v.block (take size input) block).0 in
      ap (λ a. dec a ++ ecb_loop size dec n (drop size (c ++ rest)))
        (take-append_block size c rest size_c)
      ∙ ap (λ a. dec c ++ ecb_loop size dec n a) (drop-append_block size c rest size_c)
      ∙ ap (λ a. a ++ ecb_loop size dec n rest) (v.undo (take size input) block)
      ∙ ap (λ a. take size input ++ a)
          (ecb_loop-ecb_loop n (drop size input) (length-rest n input h)
            (drop-AreBytes size input bytes))
      ∙ take-append-drop size input

  pub length-ecb_loop :
      (n : ℕ) (input : List ℕ)
      → length input ≡ n * size
      → AreBytes input
      → length (ecb_loop size enc n input) ≡ n * size
  unfolding ecb_loop
  length-ecb_loop zero input h bytes = omega arith
  length-ecb_loop (suc n) input h bytes = omega (
    arith,
    length-append (enc (take size input)) (ecb_loop size enc n (drop size input)),
    (v.block (take size input) (take-IsBytes n input h bytes)).0,
    length-ecb_loop n (drop size input) (length-rest n input h) (drop-AreBytes size input bytes),
    suc-mul n size,
  )

  mixed-IsBytes : (m iv : List ℕ) → IsBytes size m → IsBytes size iv → IsBytes size (xor_block iv m)
  mixed-IsBytes m iv h w = (length-xor_block iv m ∙ w.0, xor_block-AreBytes iv m w.1 h.1)

  pub length-cbc_encrypt_loop :
      (n : ℕ) (input iv : List ℕ)
      → length input ≡ n * size
      → AreBytes input
      → IsBytes size iv
      → length (cbc_encrypt_loop size enc n input iv).0 ≡ n * size
  unfolding cbc_encrypt_loop
  length-cbc_encrypt_loop zero input iv h bytes w = omega arith
  length-cbc_encrypt_loop (suc n) input iv h bytes w =
      let m = take size input in
      let c = v.block (xor_block iv m) (mixed-IsBytes m iv (take-IsBytes n input h bytes) w) in
      omega (
        arith,
        length-append (enc (xor_block iv m))
            (cbc_encrypt_loop size enc n (drop size input) (enc (xor_block iv m))).0,
        c.0,
        length-cbc_encrypt_loop n (drop size input) (enc (xor_block iv m)) (length-rest n input h)
            (drop-AreBytes size input bytes) c,
        suc-mul n size,
      )

  pub cbc_decrypt_loop-cbc_encrypt_loop :
      (n : ℕ) (input iv : List ℕ)
      → length input ≡ n * size
      → AreBytes input
      → IsBytes size iv
      → let r = cbc_encrypt_loop size enc n input iv in
        cbc_decrypt_loop size dec n r.0 iv ≡ (input, r.1)
  unfolding cbc_encrypt_loop cbc_decrypt_loop
  cbc_decrypt_loop-cbc_encrypt_loop zero [] iv h bytes w = refl
  cbc_decrypt_loop-cbc_encrypt_loop zero (x ∷ input) iv h bytes w = absurd (omega arith)
  cbc_decrypt_loop-cbc_encrypt_loop (suc n) input iv h bytes w =
      let m = take size input in
      let first = take-IsBytes n input h bytes in
      let mixed = mixed-IsBytes m iv first w in
      let c = enc (xor_block iv m) in
      let r = cbc_encrypt_loop size enc n (drop size input) c in
      let next =
        cbc_decrypt_loop-cbc_encrypt_loop n (drop size input) c (length-rest n input h)
          (drop-AreBytes size input bytes) (v.block (xor_block iv m) mixed) in
      let size_c = (v.block (xor_block iv m) mixed).0 in
      let plain : xor_block (dec c) iv ≡ m =
        ap (λ a. xor_block a iv) (v.undo (xor_block iv m) mixed)
        ∙ xor_block_cancel iv m (w.0 ∙ sym first.0) in
      simp (
        take-append_block size c r.0 size_c,
        drop-append_block size c r.0 size_c,
        plain,
        next,
        take-append-drop size input,
      )
