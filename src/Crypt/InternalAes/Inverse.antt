-- ===== src/Crypt/InternalAes/Inverse.antt =====
-- AES decryption undoes encryption.
use muggle_cc.Base.{ℕ, ◌≡◌, ◌⊎◌, inl, inr, ap, ◌∙◌, arith, true, List, drop}
use muggle_cc.Crypt.Modes.{ok}
use muggle_cc.Crypt.Modes.Laws.{IsBytes}
use muggle_cc.Crypt.InternalAes.{
  Subkeys, aes_add_round_key, aes_inv_sub_bytes, aes_inv_shift_rows, aes_inv_mix_column,
  encrypt_round, encrypt_last, decrypt_round, decrypt_last, aes_encrypt, aes_decrypt, is_rounds,
}
use muggle_cc.Crypt.InternalAes.Columns.{aes_inv_mix_column-aes_mix_column}
use muggle_cc.Crypt.InternalAes.Layers.{
  aes_sub_bytes-IsBytes, aes_inv_sub_bytes-aes_sub_bytes, aes_inv_shift_rows-aes_shift_rows,
  aes_shift_rows-IsBytes, aes_mix_column-IsBytes, aes_add_round_key-aes_add_round_key,
  aes_add_round_key-IsBytes,
}

module _ (rd : List ℕ) (k : ℕ) (s : List ℕ) (v : IsBytes 16 s) where
  encrypt_round-IsBytes : IsBytes 16 (encrypt_round rd k s)
  unfolding encrypt_round
  encrypt_round-IsBytes =
      aes_add_round_key-IsBytes _ (drop k rd)
        (aes_mix_column-IsBytes _ (aes_shift_rows-IsBytes _ (aes_sub_bytes-IsBytes s v)))

  encrypt_last-IsBytes : IsBytes 16 (encrypt_last rd k s)
  unfolding encrypt_last
  encrypt_last-IsBytes =
      aes_add_round_key-IsBytes _ (drop k rd) (aes_shift_rows-IsBytes _ (aes_sub_bytes-IsBytes s v))

  decrypt_round-encrypt_round : decrypt_round rd k (encrypt_round rd k s) ≡ s
  unfolding decrypt_round encrypt_round
  decrypt_round-encrypt_round =
      let sub = aes_sub_bytes-IsBytes s v in
      let shifted = aes_shift_rows-IsBytes _ sub in
      let mixed = aes_mix_column-IsBytes _ shifted in
      ap (λ t. aes_inv_sub_bytes (aes_inv_shift_rows (aes_inv_mix_column t)))
        (aes_add_round_key-aes_add_round_key _ (drop k rd) mixed.0)
      ∙ ap (λ t. aes_inv_sub_bytes (aes_inv_shift_rows t))
          (aes_inv_mix_column-aes_mix_column _ shifted)
      ∙ ap aes_inv_sub_bytes (aes_inv_shift_rows-aes_shift_rows _ sub.0)
      ∙ aes_inv_sub_bytes-aes_sub_bytes s v.1

  decrypt_last-encrypt_last : decrypt_last rd k (encrypt_last rd k s) ≡ s
  unfolding decrypt_last encrypt_last
  decrypt_last-encrypt_last =
      let sub = aes_sub_bytes-IsBytes s v in
      let shifted = aes_shift_rows-IsBytes _ sub in
      ap (λ t. aes_inv_sub_bytes (aes_inv_shift_rows t))
        (aes_add_round_key-aes_add_round_key _ (drop k rd) shifted.0)
      ∙ ap aes_inv_sub_bytes (aes_inv_shift_rows-aes_shift_rows _ sub.0)
      ∙ aes_inv_sub_bytes-aes_sub_bytes s v.1

-- Three rounds on end.
abbrev encrypt_three : List ℕ → ℕ → ℕ → ℕ → List ℕ → List ℕ
encrypt_three rd i j k s = encrypt_round rd k (encrypt_round rd j (encrypt_round rd i s))

module _ (rd : List ℕ) where
  three-IsBytes : (i j k : ℕ) (s : List ℕ) → IsBytes 16 s → IsBytes 16 (encrypt_three rd i j k s)
  three-IsBytes i j k s v =
      encrypt_round-IsBytes rd k _ (encrypt_round-IsBytes rd j _ (encrypt_round-IsBytes rd i s v))

  three-three :
      (i j k : ℕ) (s : List ℕ)
      → IsBytes 16 s
      → decrypt_round rd i (decrypt_round rd j (decrypt_round rd k (encrypt_three rd i j k s))) ≡ s
  three-three i j k s v =
      let v1 = encrypt_round-IsBytes rd i s v in
      let v2 = encrypt_round-IsBytes rd j _ v1 in
      ap (λ t. decrypt_round rd i (decrypt_round rd j t)) (decrypt_round-encrypt_round rd k _ v2)
      ∙ ap (decrypt_round rd i) (decrypt_round-encrypt_round rd j _ v1)
      ∙ decrypt_round-encrypt_round rd i s v

  -- The first nine rounds and the key before them.
  abbrev nine : List ℕ → List ℕ
  nine s =
      encrypt_three rd 28 32 36
        (encrypt_three rd 16 20 24 (encrypt_three rd 4 8 12 (aes_add_round_key s (drop 0 rd))))

  abbrev inv_nine : List ℕ → List ℕ
  inv_nine r9 =
      let r6 = decrypt_round rd 28 (decrypt_round rd 32 (decrypt_round rd 36 r9)) in
      let r3 = decrypt_round rd 16 (decrypt_round rd 20 (decrypt_round rd 24 r6)) in
      let r0 = decrypt_round rd 4 (decrypt_round rd 8 (decrypt_round rd 12 r3)) in
      aes_add_round_key r0 (drop 0 rd)

  nine-IsBytes : (s : List ℕ) → IsBytes 16 s → IsBytes 16 (nine s)
  nine-IsBytes s v = three-IsBytes 28 32 36 _ (
      three-IsBytes 16 20 24 _ (three-IsBytes 4 8 12 _ (aes_add_round_key-IsBytes s (drop 0 rd) v)))

  inv_nine-nine : (s : List ℕ) → IsBytes 16 s → inv_nine (nine s) ≡ s
  inv_nine-nine s v =
      let v0 = aes_add_round_key-IsBytes s (drop 0 rd) v in
      let v3 = three-IsBytes 4 8 12 _ v0 in
      let v6 = three-IsBytes 16 20 24 _ v3 in
      ap
        (λ t.
          aes_add_round_key
            (decrypt_round rd 4 (
              decrypt_round rd 8 (
                decrypt_round rd 12
                  (decrypt_round rd 16 (decrypt_round rd 20 (decrypt_round rd 24 t))))))
            (drop 0 rd))
        (three-three 28 32 36 _ v6)
      ∙ ap
          (λ t.
            aes_add_round_key (decrypt_round rd 4 (decrypt_round rd 8 (decrypt_round rd 12 t)))
              (drop 0 rd))
          (three-three 16 20 24 _ v3)
      ∙ ap (λ t. aes_add_round_key t (drop 0 rd)) (three-three 4 8 12 _ v0)
      ∙ aes_add_round_key-aes_add_round_key s (drop 0 rd) v.0

  two-two :
      (i j : ℕ) (s : List ℕ)
      → IsBytes 16 s
      → decrypt_round rd i (decrypt_round rd j (encrypt_round rd j (encrypt_round rd i s))) ≡ s
  two-two i j s v =
      ap (decrypt_round rd i) (decrypt_round-encrypt_round rd j _ (encrypt_round-IsBytes rd i s v))
      ∙ decrypt_round-encrypt_round rd i s v

  two-IsBytes :
      (i j : ℕ) (s : List ℕ) → IsBytes 16 s → IsBytes 16 (encrypt_round rd j (encrypt_round rd i s))
  two-IsBytes i j s v = encrypt_round-IsBytes rd j _ (encrypt_round-IsBytes rd i s v)

  -- The rounds after the ninth, undone.
  after_ten : (s : List ℕ) → IsBytes 16 s → decrypt_last rd 40 (encrypt_last rd 40 s) ≡ s
  after_ten s v = decrypt_last-encrypt_last rd 40 s v

  abbrev end_twelve : List ℕ → List ℕ
  end_twelve r9 = encrypt_last rd 48 (encrypt_round rd 44 (encrypt_round rd 40 r9))

  after_twelve :
      (s : List ℕ)
      → IsBytes 16 s
      → decrypt_round rd 40 (decrypt_round rd 44 (decrypt_last rd 48 (end_twelve s))) ≡ s
  after_twelve s v =
      ap (λ t. decrypt_round rd 40 (decrypt_round rd 44 t))
        (decrypt_last-encrypt_last rd 48 _ (two-IsBytes 40 44 s v))
      ∙ two-two 40 44 s v

  abbrev end_fourteen : List ℕ → List ℕ
  end_fourteen r9 =
      encrypt_last rd 56
        (encrypt_round rd 52 (encrypt_round rd 48 (encrypt_round rd 44 (encrypt_round rd 40 r9))))

  after_fourteen :
      (s : List ℕ)
      → IsBytes 16 s
      → decrypt_round rd 40 (
          decrypt_round rd 44
            (decrypt_round rd 48 (decrypt_round rd 52 (decrypt_last rd 56 (end_fourteen s)))))
        ≡ s
  after_fourteen s v =
      let v2 = two-IsBytes 40 44 s v in
      let inner = λ (t : List ℕ). decrypt_round rd 40 (decrypt_round rd 44 t) in
      ap (λ t. inner (decrypt_round rd 48 (decrypt_round rd 52 t)))
        (decrypt_last-encrypt_last rd 56 _ (two-IsBytes 48 52 _ v2))
      ∙ ap inner (two-two 48 52 _ v2)
      ∙ two-two 40 44 s v

-- What encryption makes of a state, and that decryption brings the state back.
abbrev pub Decrypts : Subkeys → List ℕ → Type 0
Decrypts sk s = (c : List ℕ) × (aes_encrypt s sk ≡ ok c) × IsBytes 16 c × (aes_decrypt c sk ≡ ok s)

module _ (sk : Subkeys) (s : List ℕ) (v : IsBytes 16 s) where
  ten_rounds : sk.rounds ≡ 10 → Decrypts sk s
  unfolding aes_encrypt aes_decrypt
  ten_rounds e =
      let v9 = nine-IsBytes sk.rd_key s v in
      let back = ap (inv_nine sk.rd_key) (after_ten sk.rd_key _ v9) ∙ inv_nine-nine sk.rd_key s v in
      (
        encrypt_last sk.rd_key 40 (nine sk.rd_key s),
        ground (arith, e),
        encrypt_last-IsBytes sk.rd_key 40 _ v9,
        ground (arith, e, back),
      )

  twelve_rounds : sk.rounds ≡ 12 → Decrypts sk s
  unfolding aes_encrypt aes_decrypt
  twelve_rounds e =
      let v9 = nine-IsBytes sk.rd_key s v in
      let back =
        ap (inv_nine sk.rd_key) (after_twelve sk.rd_key _ v9) ∙ inv_nine-nine sk.rd_key s v in
      (
        end_twelve sk.rd_key (nine sk.rd_key s),
        ground (arith, e),
        encrypt_last-IsBytes sk.rd_key 48 _ (two-IsBytes sk.rd_key 40 44 _ v9),
        ground (arith, e, back),
      )

  fourteen_rounds : sk.rounds ≡ 14 → Decrypts sk s
  unfolding aes_encrypt aes_decrypt
  fourteen_rounds e =
      let v9 = nine-IsBytes sk.rd_key s v in
      let back =
        ap (inv_nine sk.rd_key) (after_fourteen sk.rd_key _ v9) ∙ inv_nine-nine sk.rd_key s v in
      (
        end_fourteen sk.rd_key (nine sk.rd_key s),
        ground (arith, e),
        encrypt_last-IsBytes sk.rd_key 56 _
            (two-IsBytes sk.rd_key 48 52 _ (two-IsBytes sk.rd_key 40 44 _ v9)),
        ground (arith, e, back),
      )

rounds-cases : (n : ℕ) → is_rounds n ≡ true → (n ≡ 10) ⊎ ((n ≡ 12) ⊎ (n ≡ 14))
rounds-cases n h = ground arith

-- With a number of rounds that AES knows, whatever the words of the key, `muggle_aes_encrypt` on a
-- state of 16 bytes leaves one of 16 bytes that `muggle_aes_decrypt` turns back into it.
pub aes_decrypt-aes_encrypt :
    (sk : Subkeys) (s : List ℕ) → is_rounds sk.rounds ≡ true → IsBytes 16 s → Decrypts sk s
aes_decrypt-aes_encrypt sk s h v = elim (rounds-cases sk.rounds h) [
  | inl ten ↦ ten_rounds sk s v ten
  | inr (inl twelve) ↦ twelve_rounds sk s v twelve
  | inr (inr fourteen) ↦ fourteen_rounds sk s v fourteen
]
