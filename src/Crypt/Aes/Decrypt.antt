-- ===== src/Crypt/Aes/Decrypt.antt =====
-- What the functions of aes.c encrypt under a key, they decrypt under it.
use muggle_cc.Base.{ℕ, ◌*◌, ◌/◌, ◌<◌, ◌≡◌, sym, ap, ◌∙◌, arith, true, some, List, length}
use muggle_cc.Crypt.Modes.{
  ok, ecb_mode, cbc_mode, cfb_mode, ofb_mode, ctr_mode, Stream, Counter, ecb_loop, cbc_encrypt_loop,
  cbc_decrypt_loop, cfb_loop, ofb_loop, ctr_loop,
}
use muggle_cc.Crypt.Modes.Laws.{IsBytes, IsText}
use muggle_cc.Crypt.Modes.Blocks.{
  ecb_loop-ecb_loop, length-ecb_loop, cbc_decrypt_loop-cbc_encrypt_loop, length-cbc_encrypt_loop,
}
use muggle_cc.Crypt.Modes.Streams.{cfb_loop-cfb_loop, ofb_loop-ofb_loop, ctr_loop-ctr_loop}
use muggle_cc.Crypt.Aes.{
  Context, aes_crypt, aes_ecb, aes_cbc, aes_cfb128, aes_ofb128, aes_ctr, bump128, nonce_bytes,
}
use muggle_cc.Crypt.Aes.Keys.{Keyed, encrypt_fields, decrypt_fields, ciphers-Undoes, same_subkeys}

ecb_undone :
    (key : List ℕ) (ce cd : Context) (input : List ℕ)
    → Keyed ecb_mode key ce cd
    → IsText 16 input
    → (out : List ℕ) × (aes_ecb (some ce) (some input) true ≡ ok out)
      × (aes_ecb (some cd) (some out) true ≡ ok input)
unfolding aes_ecb
ecb_undone key ce cd input k t =
    let v = ciphers-Undoes ecb_mode key ce cd k in
    let n = length input / 16 in
    let blocks : length input ≡ n * 16 = omega (arith, t.whole) in
    let out = ecb_loop 16 (aes_crypt 1 ce.sk) n input in
    let size : length out ≡ length input =
      length-ecb_loop 16 (aes_crypt 1 ce.sk) (aes_crypt 0 cd.sk) v n input blocks t.bytes
      ∙ sym blocks in
    let back =
      ecb_loop-ecb_loop 16 (aes_crypt 1 ce.sk) (aes_crypt 0 cd.sk) v n input blocks t.bytes in
    let fe = encrypt_fields ecb_mode key ce cd k in
    let fd = decrypt_fields ecb_mode key ce cd k in
    (
      out,
      ground (arith, t.small, t.whole, fe),
      ground (
        arith,
        t.small,
        t.whole,
        fd,
        size,
        back,
        ap (λ m. ecb_loop 16 (aes_crypt 0 cd.sk) (m / 16) out) size,
      ),
    )

cbc_undone :
    (key : List ℕ) (ce cd : Context) (input iv : List ℕ)
    → Keyed cbc_mode key ce cd
    → IsText 16 input
    → IsBytes 16 iv
    → (out iv' : List ℕ) × (aes_cbc (some ce) (some input) (some iv) true ≡ ok (out, iv'))
      × (aes_cbc (some cd) (some out) (some iv) true ≡ ok (input, iv'))
unfolding aes_cbc
cbc_undone key ce cd input iv k t w =
    let v = ciphers-Undoes cbc_mode key ce cd k in
    let n = length input / 16 in
    let blocks : length input ≡ n * 16 = omega (arith, t.whole) in
    let r = cbc_encrypt_loop 16 (aes_crypt 1 ce.sk) n input iv in
    let size : length r.0 ≡ length input =
      length-cbc_encrypt_loop 16 (aes_crypt 1 ce.sk) (aes_crypt 0 cd.sk) v n input iv blocks t.bytes
        w
      ∙ sym blocks in
    let back =
      cbc_decrypt_loop-cbc_encrypt_loop 16 (aes_crypt 1 ce.sk) (aes_crypt 0 cd.sk) v n input iv
        blocks t.bytes w in
    let fe = encrypt_fields cbc_mode key ce cd k in
    let fd = decrypt_fields cbc_mode key ce cd k in
    (
      r.0,
      r.1,
      ground (arith, t.small, t.whole, fe),
      ground (
        arith,
        t.small,
        t.whole,
        fd,
        size,
        back,
        ap (λ m. cbc_decrypt_loop 16 (aes_crypt 0 cd.sk) (m / 16) r.0 iv) size,
      ),
    )

-- For contexts that `muggle_aes_set_key` set up in the same memory with the same key, `muggle_aes_ecb` and
-- `muggle_aes_cbc` encrypt every text of whole blocks, and decrypt what they encrypted to the text,
-- in the second mode from the same initial vector, which both calls leave alike.
pub aes_blocks_undone :
    (key : List ℕ) (ce0 cd0 ce1 cd1 : Context) (input iv : List ℕ)
    → Keyed ecb_mode key ce0 cd0
    → Keyed cbc_mode key ce1 cd1
    → IsText 16 input
    → IsBytes 16 iv
    → ((out : List ℕ) × (aes_ecb (some ce0) (some input) true ≡ ok out)
        × (aes_ecb (some cd0) (some out) true ≡ ok input))
      × ((out iv' : List ℕ) × (aes_cbc (some ce1) (some input) (some iv) true ≡ ok (out, iv'))
          × (aes_cbc (some cd1) (some out) (some iv) true ≡ ok (input, iv')))
aes_blocks_undone key ce0 cd0 ce1 cd1 input iv k0 k1 t v =
    (ecb_undone key ce0 cd0 input k0 t, cbc_undone key ce1 cd1 input iv k1 t v)

module _ (key : List ℕ) (ce cd : Context) (input iv : List ℕ) (offset : ℕ)
    (small : offset < 16) where
  cfb_undone :
      Keyed cfb_mode key ce cd
      → (r : Stream) × (aes_cfb128 (some ce) (some input) (some iv) offset true ≡ ok r)
        × (aes_cfb128 (some cd) (some r.output) (some iv) offset true
            ≡ ok (record r { output = input }))
  unfolding aes_cfb128
  cfb_undone k =
      let fe = encrypt_fields cfb_mode key ce cd k in
      let fd = decrypt_fields cfb_mode key ce cd k in
      let crypt = aes_crypt 1 ce.sk in
      let r = cfb_loop 16 crypt 1 input iv offset in
      (
        r,
        ground (arith, small, fe),
        ground (
          arith,
          small,
          fd,
          cfb_loop-cfb_loop 16 crypt input iv offset,
          ap (λ s. cfb_loop 16 (aes_crypt 1 s) 0 r.output iv offset)
              (same_subkeys cfb_mode key ce cd k),
        ),
      )

  ofb_undone :
      Keyed ofb_mode key ce cd
      → (r : Stream) × (aes_ofb128 (some ce) (some input) (some iv) offset true ≡ ok r)
        × (aes_ofb128 (some cd) (some r.output) (some iv) offset true
            ≡ ok (record r { output = input }))
  unfolding aes_ofb128
  ofb_undone k =
      let fe = encrypt_fields ofb_mode key ce cd k in
      let fd = decrypt_fields ofb_mode key ce cd k in
      let crypt = aes_crypt 1 ce.sk in
      let r = ofb_loop 16 crypt input iv offset in
      (
        r,
        ground (arith, small, fe),
        ground (
          arith,
          small,
          fd,
          ofb_loop-ofb_loop 16 crypt input iv offset,
          ap (λ s. ofb_loop 16 (aes_crypt 1 s) r.output iv offset)
              (same_subkeys ofb_mode key ce cd k),
        ),
      )

  ctr_undone :
      (nonce : ℕ × ℕ)
      → Keyed ctr_mode key ce cd
      → (r : Counter (ℕ × ℕ)) × (aes_ctr (some ce) (some input) nonce (some offset) (some iv) true
          ≡ ok r)
        × (aes_ctr (some cd) (some r.output) nonce (some offset) (some iv) true
            ≡ ok (record r { output = input }))
  unfolding aes_ctr
  ctr_undone nonce k =
      let fe = encrypt_fields ctr_mode key ce cd k in
      let fd = decrypt_fields ctr_mode key ce cd k in
      let crypt = aes_crypt 1 ce.sk in
      let r = ctr_loop 16 crypt bump128 nonce_bytes input nonce iv offset in
      (
        r,
        ground (arith, small, fe),
        ground (
          arith,
          small,
          fd,
          ctr_loop-ctr_loop 16 crypt bump128 nonce_bytes input nonce iv offset,
          ap (λ s. ctr_loop 16 (aes_crypt 1 s) bump128 nonce_bytes r.output nonce iv offset)
              (same_subkeys ctr_mode key ce cd k),
        ),
      )

-- `muggle_aes_cfb128`, `muggle_aes_ofb128` and `muggle_aes_ctr` with contexts that `muggle_aes_set_key`
-- set up to decrypt in the same memory give back any text that they encrypted with contexts of the same key, from the
-- same vector or nonce, stream block and offset, and leave those as the encryption did.
pub aes_streams_undone :
    (key : List ℕ) (ce2 cd2 ce3 cd3 ce4 cd4 : Context) (input iv : List ℕ) (nonce : ℕ × ℕ)
    (offset : ℕ)
    → Keyed cfb_mode key ce2 cd2
    → Keyed ofb_mode key ce3 cd3
    → Keyed ctr_mode key ce4 cd4
    → offset < 16
    → ((r : Stream) × (aes_cfb128 (some ce2) (some input) (some iv) offset true ≡ ok r)
        × (aes_cfb128 (some cd2) (some r.output) (some iv) offset true
            ≡ ok (record r { output = input })))
      × ((r : Stream) × (aes_ofb128 (some ce3) (some input) (some iv) offset true ≡ ok r)
          × (aes_ofb128 (some cd3) (some r.output) (some iv) offset true
              ≡ ok (record r { output = input })))
      × ((r : Counter (ℕ × ℕ)) × (aes_ctr (some ce4) (some input) nonce (some offset) (some iv) true
            ≡ ok r)
          × (aes_ctr (some cd4) (some r.output) nonce (some offset) (some iv) true
              ≡ ok (record r { output = input })))
aes_streams_undone key ce2 cd2 ce3 cd3 ce4 cd4 input iv nonce offset k2 k3 k4 small = (
  cfb_undone key ce2 cd2 input iv offset small k2,
  ofb_undone key ce3 cd3 input iv offset small k3,
  ctr_undone key ce4 cd4 input iv offset small nonce k4,
)
