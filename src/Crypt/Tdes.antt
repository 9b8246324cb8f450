-- ===== src/Crypt/Tdes.antt =====
-- muggle/c/crypt/tdes.c, built without MUGGLE_CRYPT_OPTIMIZATION. A pointer parameter is an option,
-- `none` for NULL; an input holds `num_bytes` bytes; what a call leaves in its buffers is its result.
pub mod RoundTrip
pub mod Keys
pub mod Decrypt
mod Tests
use muggle_cc.Base.{
  ℕ, ◌+◌, ◌/◌, ◌%◌, ◌^◌, Bool, true, false, Option, none, some, List, length, if◌then◌else◌, ◌==◌,
  ltb,
}
use muggle_cc.Bits.Bytes.{to_bytes}
use muggle_cc.Crypt.InternalDes.{Block, Subkey, des_ip, des_fp}
use muggle_cc.Crypt.Modes.{
  Error, null_param, invalid_param, Result, ok, err, ◌>>=◌, ◌>>◌, check, not_null, is_op, round_up,
  ecb_mode, cbc_mode, cfb_mode, ofb_mode, ctr_mode, ecb_loop, cbc_loop, cbc_encrypt_loop,
  cbc_decrypt_loop, Stream, Counter, cfb_loop, ofb_loop, ctr_loop,
}
use muggle_cc.Crypt.Des.{
  feistel_loop, exchange, block_of_bytes, bytes_of_block, des_set_key, bump64,
}
use muggle_cc.Crypt.Des

pub record Context : Type 0 where
  pub op : ℕ
  pub mode : ℕ
  pub ctx1 : Des.Context
  pub ctx2 : Des.Context
  pub ctx3 : Des.Context

-- The halves do not change places between the three passes.
unfoldable pub tdes_crypt : List Subkey → List Subkey → List Subkey → Block → Block
tdes_crypt ks1 ks2 ks3 input =
    des_fp (exchange (feistel_loop ks3 (feistel_loop ks2 (feistel_loop ks1 (des_ip input)))))

-- The same on the bytes of a block, with the subkeys of a context.
unfoldable pub tdes_crypt_bytes : Context → List ℕ → List ℕ
tdes_crypt_bytes c bytes =
    bytes_of_block (tdes_crypt c.ctx1.sk c.ctx2.sk c.ctx3.sk (block_of_bytes bytes))

-- The three contexts set up, each with its operation and key.
unfoldable pub three_keys : ℕ × ℕ → ℕ × ℕ × ℕ → List ℕ → List ℕ → List ℕ → Context → Result Context
three_keys (op, mode) (op1, op2, op3) key1 key2 key3 old = do
  c1 ← des_set_key op1 ecb_mode (some key1) (some old.ctx1)
  c2 ← des_set_key op2 ecb_mode (some key2) (some old.ctx2)
  c3 ← des_set_key op3 ecb_mode (some key3) (some old.ctx3)
  ok (record { op = op; mode = mode; ctx1 = c1; ctx2 = c2; ctx3 = c3 })

-- `inv_op`
abbrev pub inverse : ℕ → ℕ
inverse op = if op == 1 then 0 else 1

unfoldable pub tdes_set_key :
    ℕ → ℕ → Option (List ℕ) → Option (List ℕ) → Option (List ℕ) → Option Context → Result Context
tdes_set_key op mode key1 key2 key3 ctx = do
  check (is_op op) invalid_param
  k1 ← not_null key1
  k2 ← not_null key2
  k3 ← not_null key3
  old ← not_null ctx
  let inv_op = inverse op
  let forwards = three_keys (op, mode) (op, inv_op, op) k1 k2 k3 old
  let backwards = three_keys (op, mode) (op, inv_op, op) k3 k2 k1 old
  let stream = three_keys (op, mode) (1, 0, 1) k1 k2 k3 old
  let block = if op == 1 then forwards else backwards
  if ltb mode 2 then block else if ltb mode 5 then stream else err invalid_param

unfoldable pub tdes_ecb : Option Context → Option (List ℕ) → Bool → Result (List ℕ)
tdes_ecb ctx input output = do
  c ← not_null ctx
  check (c.mode == ecb_mode) invalid_param
  src ← not_null input
  check (round_up (length src) 8 == length src) invalid_param
  check output null_param
  ok (ecb_loop 8 (tdes_crypt_bytes c) (length src / 8) src)

-- The output, and `iv_bytes` as it is left.
unfoldable pub tdes_cbc :
    Option Context → Option (List ℕ) → Option (List ℕ) → Bool → Result (List ℕ × List ℕ)
tdes_cbc ctx input iv_bytes output = do
  c ← not_null ctx
  check (c.mode == cbc_mode) invalid_param
  src ← not_null input
  check (round_up (length src) 8 == length src) invalid_param
  iv ← not_null iv_bytes
  check output null_param
  check (is_op c.op) invalid_param
  ok (cbc_loop 8 (tdes_crypt_bytes c) c.op (length src / 8) src iv)

unfoldable pub tdes_cfb64 :
    Option Context → Option (List ℕ) → Option (List ℕ) → Option ℕ → Bool → Result Stream
tdes_cfb64 ctx input iv iv_offset output = do
  c ← not_null ctx
  check (c.mode == cfb_mode) invalid_param
  src ← not_null input
  v ← not_null iv
  offset ← not_null iv_offset
  check (ltb offset 8) invalid_param
  check output null_param
  check (is_op c.op) invalid_param
  ok (cfb_loop 8 (tdes_crypt_bytes c) c.op src v offset)

unfoldable pub tdes_ofb64 :
    Option Context → Option (List ℕ) → Option (List ℕ) → Option ℕ → Bool → Result Stream
tdes_ofb64 ctx input iv iv_offset output = do
  c ← not_null ctx
  check (c.mode == ofb_mode) invalid_param
  src ← not_null input
  v ← not_null iv
  offset ← not_null iv_offset
  check (ltb offset 8) invalid_param
  check output null_param
  ok (ofb_loop 8 (tdes_crypt_bytes c) src v offset)

unfoldable pub tdes_ctr :
    Option Context
    → Option (List ℕ)
    → Option ℕ
    → Option ℕ
    → Option (List ℕ)
    → Bool
    → Result (Counter ℕ)
tdes_ctr ctx input nonce nonce_offset stream_block output = do
  c ← not_null ctx
  check (c.mode == ctr_mode) invalid_param
  src ← not_null input
  n ← not_null nonce
  offset ← not_null nonce_offset
  check (ltb offset 8) invalid_param
  block ← not_null stream_block
  check output null_param
  ok (ctr_loop 8 (tdes_crypt_bytes c) bump64 (to_bytes 8) src n block offset)
