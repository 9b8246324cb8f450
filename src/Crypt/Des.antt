-- ===== src/Crypt/Des.antt =====
-- muggle/c/crypt/des.c, built without MUGGLE_CRYPT_OPTIMIZATION. A pointer parameter is an option,
-- `none` for NULL; an input holds `num_bytes` bytes; what a call leaves in its buffers is its result.
pub mod Feistel
pub mod Schedule
pub mod RoundTrip
pub mod Keys
pub mod Decrypt
mod Tests
use muggle_cc.Base.{
  ℕ, zero, suc, ◌+◌, ◌-◌, ◌*◌, ◌/◌, ◌%◌, ◌^◌, Bool, true, false, Option, none, some, List, [], ◌∷◌,
  ◌++◌, length, set, take, drop, if◌then◌else◌, ◌==◌, ltb, bit_and, bit_or, bit_xor,
}
use muggle_cc.Bits.Bytes.{of_bytes, to_bytes}
use muggle_cc.Crypt.InternalDes.{Block, Subkey, des_ip, des_fp, des_f, des_pc1, des_pc2}
use muggle_cc.Crypt.Modes.{
  Error, null_param, invalid_param, Result, ok, err, ◌>>=◌, ◌>>◌, check, not_null, is_op, round_up,
  ecb_mode, cbc_mode, cfb_mode, ofb_mode, ctr_mode, ecb_loop, cbc_loop, cbc_encrypt_loop,
  cbc_decrypt_loop, Stream, Counter, cfb_loop, ofb_loop, ctr_loop,
}

pub record Context : Type 0 where
  pub op : ℕ
  pub mode : ℕ
  pub sk : List Subkey

-- The views of the union `muggle_64bit_block`.
unfoldable pub block_of_bytes : List ℕ → Block
unfolding of_bytes
block_of_bytes bytes = record { l = of_bytes (take 4 bytes); h = of_bytes (take 4 (drop 4 bytes)) }

unfoldable pub bytes_of_block : Block → List ℕ
unfolding to_bytes
bytes_of_block b = to_bytes 4 b.l ++ to_bytes 4 b.h

-- MUGGLE_DES_KEY_SHIFT
unfoldable pub key_shift : ℕ → ℕ → ℕ → ℕ
key_shift word shift mask =
    bit_or (word * 2 ^ shift % 2 ^ 32) (bit_and (word / 2 ^ (28 - shift)) mask)

unfoldable pub shift_block : Block → ℕ → ℕ → Block
unfolding key_shift
shift_block out shift mask = record {
  l = key_shift out.l shift mask;
  h = key_shift out.h shift mask;
}

-- `key_round_shift` with `key_round_mask`
abbrev pub key_rounds : List (ℕ × ℕ)
key_rounds =
    (1, 1)
    ∷ (1, 1)
    ∷ (2, 3)
    ∷ (2, 3)
    ∷ (2, 3)
    ∷ (2, 3)
    ∷ (2, 3)
    ∷ (2, 3)
    ∷ (1, 1)
    ∷ (2, 3)
    ∷ (2, 3)
    ∷ (2, 3)
    ∷ (2, 3)
    ∷ (2, 3)
    ∷ (2, 3)
    ∷ (1, 1)
    ∷ []

unfoldable pub schedule_loop : ℕ → List (ℕ × ℕ) → ℕ → Block → List Subkey → List Subkey
schedule_loop op [] i out subkeys = subkeys
schedule_loop op ((shift, mask) ∷ rounds) i out subkeys =
    let out' = shift_block out shift mask in
    let idx = if op == 0 then 15 - i else i in
    schedule_loop op rounds (suc i) out' (set subkeys idx (des_pc2 out'))

unfoldable pub des_set_key_inner : ℕ → List ℕ → List Subkey → List Subkey
unfolding schedule_loop
des_set_key_inner op key_bytes subkeys =
    schedule_loop op key_rounds 0 (des_pc1 (block_of_bytes key_bytes)) subkeys

-- A round: `tmp = l ^ f(h); l = h; h = tmp`.
unfoldable pub round : Block → Subkey → Block
round b k = record { l = b.h; h = bit_xor b.l (des_f b.h k) }

unfoldable pub feistel_loop : List Subkey → Block → Block
unfolding round
feistel_loop [] b = b
feistel_loop (k ∷ sk) b = feistel_loop sk (round b k)

-- The halves change places before the final permutation.
unfoldable pub exchange : Block → Block
exchange b = record { l = b.h; h = b.l }

unfoldable pub des_crypt : List Subkey → Block → Block
unfolding feistel_loop exchange
des_crypt ks input = des_fp (exchange (feistel_loop ks (des_ip input)))

-- The same on the bytes of a block.
unfoldable pub des_crypt_bytes : List Subkey → List ℕ → List ℕ
des_crypt_bytes ks bytes = bytes_of_block (des_crypt ks (block_of_bytes bytes))

-- `key` and the context are pointers; the context's subkeys are overwritten.
unfoldable pub des_set_key : ℕ → ℕ → Option (List ℕ) → Option Context → Result Context
des_set_key op mode key ctx = do
  check (is_op op) invalid_param
  key_bytes ← not_null key
  old ← not_null ctx
  let by_op = ok (record { op = op; mode = mode; sk = des_set_key_inner op key_bytes old.sk })
  let by_encrypt = ok (record { op = op; mode = mode; sk = des_set_key_inner 1 key_bytes old.sk })
  if ltb mode 2 then by_op else if ltb mode 5 then by_encrypt else err invalid_param

unfoldable pub des_ecb : Option Context → Option (List ℕ) → Bool → Result (List ℕ)
des_ecb ctx input output = do
  c ← not_null ctx
  check (c.mode == ecb_mode) invalid_param
  src ← not_null input
  check (round_up (length src) 8 == length src) invalid_param
  check output null_param
  ok (ecb_loop 8 (des_crypt_bytes c.sk) (length src / 8) src)

-- The output, and `iv_bytes` as it is left.
unfoldable pub des_cbc :
    Option Context → Option (List ℕ) → Option (List ℕ) → Bool → Result (List ℕ × List ℕ)
des_cbc ctx input iv_bytes output = do
  c ← not_null ctx
  check (c.mode == cbc_mode) invalid_param
  src ← not_null input
  check (round_up (length src) 8 == length src) invalid_param
  iv ← not_null iv_bytes
  check output null_param
  check (is_op c.op) invalid_param
  ok (cbc_loop 8 (des_crypt_bytes c.sk) c.op (length src / 8) src iv)

unfoldable pub des_cfb64 :
    Option Context → Option (List ℕ) → Option (List ℕ) → Option ℕ → Bool → Result Stream
des_cfb64 ctx input iv iv_offset output = do
  c ← not_null ctx
  check (c.mode == cfb_mode) invalid_param
  src ← not_null input
  v ← not_null iv
  offset ← not_null iv_offset
  check (ltb offset 8) invalid_param
  check output null_param
  check (is_op c.op) invalid_param
  ok (cfb_loop 8 (des_crypt_bytes c.sk) c.op src v offset)

unfoldable pub des_ofb64 :
    Option Context → Option (List ℕ) → Option (List ℕ) → Option ℕ → Bool → Result Stream
des_ofb64 ctx input iv iv_offset output = do
  c ← not_null ctx
  check (c.mode == ofb_mode) invalid_param
  src ← not_null input
  v ← not_null iv
  offset ← not_null iv_offset
  check (ltb offset 8) invalid_param
  check output null_param
  ok (ofb_loop 8 (des_crypt_bytes c.sk) src v offset)

-- `*nonce += 1`
abbrev pub bump64 : ℕ → ℕ
bump64 nonce = (nonce + 1) % 2 ^ 64

unfoldable pub des_ctr :
    Option Context
    → Option (List ℕ)
    → Option ℕ
    → Option ℕ
    → Option (List ℕ)
    → Bool
    → Result (Counter ℕ)
des_ctr ctx input nonce nonce_offset stream_block output = do
  c ← not_null ctx
  check (c.mode == ctr_mode) invalid_param
  src ← not_null input
  n ← not_null nonce
  offset ← not_null nonce_offset
  check (ltb offset 8) invalid_param
  block ← not_null stream_block
  check output null_param
  ok (ctr_loop 8 (des_crypt_bytes c.sk) bump64 (to_bytes 8) src n block offset)
