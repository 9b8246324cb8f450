-- ===== src/Crypt/Des/Decrypt.antt =====
-- What the functions of des.c encrypt under a key, they decrypt under it.
use muggle_cc.Base.{ℕ, ◌*◌, ◌/◌, ◌<◌, ◌≡◌, sym, ap, ◌∙◌, arith, true, some, List, length}
use muggle_cc.Bits.Bytes.{to_bytes}
use muggle_cc.Crypt.Modes.{
  ok, ecb_mode, cbc_mode, cfb_mode, ofb_mode, ctr_mode, Stream, Counter, ecb_loop, cbc_encrypt_loop,
  cbc_decrypt_loop, cfb_loop, ofb_loop, ctr_loop,
}
use muggle_cc.Crypt.Modes.Laws.{IsBytes, IsText}
use muggle_cc.Crypt.Modes.Blocks.{
  ecb_loop-ecb_loop, length-ecb_loop, cbc_decrypt_loop-cbc_encrypt_loop, length-cbc_encrypt_loop,
}
use muggle_cc.Crypt.Modes.Streams.{cfb_loop-cfb_loop, ofb_loop-ofb_loop, ctr_loop-ctr_loop}
use muggle_cc.Crypt.Des.{
  Context, des_crypt_bytes, des_ecb, des_cbc, des_cfb64, des_ofb64, des_ctr, bump64,
}
use muggle_cc.Crypt.Des.Keys.{
  Keyed, encrypt_fields, decrypt_fields, ciphers-Undoes, same_subkeys, stream_fields,
}

ecb_undone :
    (key : List ℕ) (ce cd : Context) (input : List ℕ)
    → Keyed ecb_mode key ce cd
    → IsText 8 input
    → (out : List ℕ) × (des_ecb (some ce) (some input) true ≡ ok out)
      × (des_ecb (some cd) (some out) true ≡ ok input)
unfolding des_ecb
ecb_undone key ce cd input k t =
    let v = ciphers-Undoes ecb_mode key ce cd k (omega arith) in
    let n = length input / 8 in
    let blocks : length input ≡ n * 8 = omega (arith, t.whole) in
    let out = ecb_loop 8 (des_crypt_bytes ce.sk) n input in
    let size : length out ≡ length input =
      length-ecb_loop 8 (des_crypt_bytes ce.sk) (des_crypt_bytes cd.sk) v n input blocks t.bytes
      ∙ sym blocks in
    let back =
      ecb_loop-ecb_loop 8 (des_crypt_bytes ce.sk) (des_crypt_bytes cd.sk) v n input blocks
        t.bytes in
    let fe = encrypt_fields ecb_mode key ce cd k (omega arith) in
    let fd = decrypt_fields ecb_mode key ce cd k (omega arith) in
    (
      out,
      ground (arith, t.small, t.whole, fe),
      ground (
        arith,
        t.small,
        t.whole,
        fd,
        size,
        back,
        ap (λ m. ecb_loop 8 (des_crypt_bytes cd.sk) (m / 8) out) size,
      ),
    )

cbc_undone :
    (key : List ℕ) (ce cd : Context) (input iv : List ℕ)
    → Keyed cbc_mode key ce cd
    → IsText 8 input
    → IsBytes 8 iv
    → (out iv' : List ℕ) × (des_cbc (some ce) (some input) (some iv) true ≡ ok (out, iv'))
      × (des_cbc (some cd) (some out) (some iv) true ≡ ok (input, iv'))
unfolding des_cbc
cbc_undone key ce cd input iv k t w =
    let v = ciphers-Undoes cbc_mode key ce cd k (omega arith) in
    let n = length input / 8 in
    let blocks : length input ≡ n * 8 = omega (arith, t.whole) in
    let r = cbc_encrypt_loop 8 (des_crypt_bytes ce.sk) n input iv in
    let size : length r.0 ≡ length input =
      length-cbc_encrypt_loop 8 (des_crypt_bytes ce.sk) (des_crypt_bytes cd.sk) v n input iv blocks
        t.bytes w
      ∙ sym blocks in
    let back =
      cbc_decrypt_loop-cbc_encrypt_loop 8 (des_crypt_bytes ce.sk) (des_crypt_bytes cd.sk) v n input
        iv blocks t.bytes w in
    let fe = encrypt_fields cbc_mode key ce cd k (omega arith) in
    let fd = decrypt_fields cbc_mode key ce cd k (omega arith) in
    (
      r.0,
      r.1,
      ground (arith, t.small, t.whole, fe),
      ground (
        arith,
        t.small,
        t.whole,
        fd,
        size,
        back,
        ap (λ m. cbc_decrypt_loop 8 (des_crypt_bytes cd.sk) (m / 8) r.0 iv) size,
      ),
    )

-- For contexts that `muggle_des_set_key` set up with the same key, `muggle_des_ecb` and
-- `muggle_des_cbc` encrypt every text of whole blocks, and decrypt what they encrypted to the text,
-- in the second mode from the same initial vector, which both calls leave alike.
pub des_blocks_undone :
    (key : List ℕ) (ce0 cd0 ce1 cd1 : Context) (input iv : List ℕ)
    → Keyed ecb_mode key ce0 cd0
    → Keyed cbc_mode key ce1 cd1
    → IsText 8 input
    → IsBytes 8 iv
    → ((out : List ℕ) × (des_ecb (some ce0) (some input) true ≡ ok out)
        × (des_ecb (some cd0) (some out) true ≡ ok input))
      × ((out iv' : List ℕ) × (des_cbc (some ce1) (some input) (some iv) true ≡ ok (out, iv'))
          × (des_cbc (some cd1) (some out) (some iv) true ≡ ok (input, iv')))
des_blocks_undone key ce0 cd0 ce1 cd1 input iv k0 k1 t v =
    (ecb_undone key ce0 cd0 input k0 t, cbc_undone key ce1 cd1 input iv k1 t v)

module _ (key : List ℕ) (ce cd : Context) (input iv : List ℕ) (offset : ℕ)
    (small : offset < 8) where
  cfb_undone :
      Keyed cfb_mode key ce cd
      → (r : Stream) × (des_cfb64 (some ce) (some input) (some iv) (some offset) true ≡ ok r)
        × (des_cfb64 (some cd) (some r.output) (some iv) (some offset) true
            ≡ ok (record r { output = input }))
  unfolding des_cfb64
  cfb_undone k =
      let fe = encrypt_fields cfb_mode key ce cd k (omega arith) in
      let fd = stream_fields cfb_mode key ce cd k (omega arith) (omega arith) in
      let crypt = des_crypt_bytes ce.sk in
      let r = cfb_loop 8 crypt 1 input iv offset in
      (
        r,
        ground (arith, small, fe),
        ground (
          arith,
          small,
          fd,
          cfb_loop-cfb_loop 8 crypt input iv offset,
          ap (λ s. cfb_loop 8 (des_crypt_bytes s) 0 r.output iv offset)
              (same_subkeys cfb_mode key ce cd k (omega arith) (omega arith)),
        ),
      )

  ofb_undone :
      Keyed ofb_mode key ce cd
      → (r : Stream) × (des_ofb64 (some ce) (some input) (some iv) (some offset) true ≡ ok r)
        × (des_ofb64 (some cd) (some r.output) (some iv) (some offset) true
            ≡ ok (record r { output = input }))
  unfolding des_ofb64
  ofb_undone k =
      let fe = encrypt_fields ofb_mode key ce cd k (omega arith) in
      let fd = stream_fields ofb_mode key ce cd k (omega arith) (omega arith) in
      let crypt = des_crypt_bytes ce.sk in
      let r = ofb_loop 8 crypt input iv offset in
      (
        r,
        ground (arith, small, fe),
        ground (
          arith,
          small,
          fd,
          ofb_loop-ofb_loop 8 crypt input iv offset,
          ap (λ s. ofb_loop 8 (des_crypt_bytes s) r.output iv offset)
              (same_subkeys ofb_mode key ce cd k (omega arith) (omega arith)),
        ),
      )

  ctr_undone :
      (nonce : ℕ)
      → Keyed ctr_mode key ce cd
      → (r : Counter ℕ) × (des_ctr (some ce) (some input) (some nonce) (some offset) (some iv) true
          ≡ ok r)
        × (des_ctr (some cd) (some r.output) (some nonce) (some offset) (some iv) true
            ≡ ok (record r { output = input }))
  unfolding des_ctr
  ctr_undone nonce k =
      let fe = encrypt_fields ctr_mode key ce cd k (omega arith) in
      let fd = stream_fields ctr_mode key ce cd k (omega arith) (omega arith) in
      let crypt = des_crypt_bytes ce.sk in
      let r = ctr_loop 8 crypt bump64 (to_bytes 8) input nonce iv offset in
      (
        r,
        ground (arith, small, fe),
        ground (
          arith,
          small,
          fd,
          ctr_loop-ctr_loop 8 crypt bump64 (to_bytes 8) input nonce iv offset,
          ap (λ s. ctr_loop 8 (des_crypt_bytes s) bump64 (to_bytes 8) r.output nonce iv offset)
              (same_subkeys ctr_mode key ce cd k (omega arith) (omega arith)),
        ),
      )

-- `muggle_des_cfb64`, `muggle_des_ofb64` and `muggle_des_ctr` with contexts that `muggle_des_set_key`
-- set up to decrypt give back any text that they encrypted with contexts of the same key, from the
-- same vector or nonce, stream block and offset, and leave those as the encryption did.
pub des_streams_undone :
    (key : List ℕ) (ce2 cd2 ce3 cd3 ce4 cd4 : Context) (input iv : List ℕ) (nonce offset : ℕ)
    → Keyed cfb_mode key ce2 cd2
    → Keyed ofb_mode key ce3 cd3
    → Keyed ctr_mode key ce4 cd4
    → offset < 8
    → ((r : Stream) × (des_cfb64 (some ce2) (some input) (some iv) (some offset) true ≡ ok r)
        × (des_cfb64 (some cd2) (some r.output) (some iv) (some offset) true
            ≡ ok (record r { output = input })))
      × ((r : Stream) × (des_ofb64 (some ce3) (some input) (some iv) (some offset) true ≡ ok r)
          × (des_ofb64 (some cd3) (some r.output) (some iv) (some offset) true
              ≡ ok (record r { output = input })))
      × ((r : Counter ℕ) × (des_ctr
              (some ce4)
              (some input)
              (some nonce)
              (some offset)
              (some iv)
              true
            ≡ ok r)
          × (des_ctr (some cd4) (some r.output) (some nonce) (some offset) (some iv) true
              ≡ ok (record r { output = input })))
des_streams_undone key ce2 cd2 ce3 cd3 ce4 cd4 input iv nonce offset k2 k3 k4 small = (
  cfb_undone key ce2 cd2 input iv offset small k2,
  ofb_undone key ce3 cd3 input iv offset small k3,
  ctr_undone key ce4 cd4 input iv offset small nonce k4,
)
