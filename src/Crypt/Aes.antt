-- ===== src/Crypt/Aes.antt =====
-- muggle/c/crypt/aes.c, built without MUGGLE_CRYPT_OPTIMIZATION. A pointer parameter that is checked
-- for NULL is an option; an input holds `num_bytes` bytes; what a call leaves in its buffers is its
-- result.
pub mod Blocks
pub mod Keys
pub mod Decrypt
mod Tests
use muggle_cc.Base.{
  ℕ, zero, suc, ◌+◌, ◌-◌, ◌*◌, ◌/◌, ◌%◌, ◌^◌, Bool, true, false, ◌&&◌, Option, none, some, List, [],
  ◌∷◌, ◌++◌, length, set, if◌then◌else◌, ◌==◌, ltb, bit_or, bit_xor,
}
use muggle_cc.Bits.Bytes.{to_bytes}
use muggle_cc.Crypt.InternalAes.{
  at, Subkeys, aes_encrypt, aes_decrypt, aes_rot_word, aes_sub_word, s_aes_rcon,
}
use muggle_cc.Crypt.Modes.{
  Error, null_param, invalid_param, key_size, Result, ok, err, ◌>>=◌, ◌>>◌, check, not_null, is_op,
  round_up, ecb_mode, cbc_mode, cfb_mode, ofb_mode, ctr_mode, ecb_loop, cbc_loop, cbc_encrypt_loop,
  cbc_decrypt_loop, Stream, Counter, cfb_loop, ofb_loop, ctr_loop,
}

pub record Context : Type 0 where
  pub op : ℕ
  pub mode : ℕ
  pub sk : Subkeys

-- The bytes of a block column by column, as the state has them row by row, and back.
unfoldable pub transpose : List ℕ → List ℕ
transpose s =
    at s 0
    ∷ at s 4
    ∷ at s 8
    ∷ at s 12
    ∷ at s 1
    ∷ at s 5
    ∷ at s 9
    ∷ at s 13
    ∷ at s 2
    ∷ at s 6
    ∷ at s 10
    ∷ at s 14
    ∷ at s 3
    ∷ at s 7
    ∷ at s 11
    ∷ at s 15
    ∷ []

-- What `muggle_aes_crypt` makes of the state, and the state where it fails.
abbrev pub left_in : Result (List ℕ) → List ℕ → List ℕ
left_in (ok s) state = s
left_in (err e) state = state

-- The output; the modes do not look at what the call returns.
unfoldable pub aes_crypt : ℕ → Subkeys → List ℕ → List ℕ
aes_crypt op sk input =
    let state = transpose input in
    let done =
      if op == 1
      then aes_encrypt state sk
      else if op == 0
      then aes_decrypt state sk
      else err invalid_param in
    transpose (left_in done state)

-- `Nr` and `Nk`.
abbrev pub key_sizes : ℕ → Result (ℕ × ℕ)
key_sizes bits =
    if bits == 128
    then ok (10, 4)
    else if bits == 192
    then ok (12, 6)
    else if bits == 256
    then ok (14, 8)
    else err key_size

unfoldable pub load_loop : ℕ → ℕ → List ℕ → List ℕ → List ℕ
load_loop zero i key rd_key = rd_key
load_loop (suc n) i key rd_key =
    let word =
      bit_or
        (bit_or (bit_or (at key (4 * i + 0) * 2 ^ 24) (at key (4 * i + 1) * 2 ^ 16))
          (at key (4 * i + 2) * 2 ^ 8))
        (at key (4 * i + 3)) in
    load_loop n (suc i) key (set rd_key i word)

-- `temp`, as word `i` is made of it.
unfoldable pub key_temp : ℕ → ℕ → ℕ → ℕ
unfolding aes_rot_word aes_sub_word s_aes_rcon
key_temp nk i temp =
    if i % nk == 0
    then bit_xor (aes_sub_word (aes_rot_word temp)) (at s_aes_rcon ((i - 1) / nk))
    else if ltb 6 nk && (i % nk == 4)
    then aes_sub_word temp
    else temp

unfoldable pub expand_loop : ℕ → ℕ → ℕ → List ℕ → List ℕ
expand_loop zero nk i rd_key = rd_key
expand_loop (suc n) nk i rd_key =
    let word = bit_xor (at rd_key (i - nk)) (key_temp nk i (at rd_key (i - 1))) in
    expand_loop n nk (suc i) (set rd_key i word)

unfoldable pub aes_set_key : ℕ → ℕ → Option (List ℕ) → ℕ → Option Context → Result Context
aes_set_key op mode key bits ctx = do
  check (is_op op) invalid_param
  check (ltb mode 5) invalid_param
  key_bytes ← not_null key
  old ← not_null ctx
  sizes ← key_sizes bits
  let loaded = load_loop sizes.1 0 key_bytes old.sk.rd_key
  let expanded = expand_loop (4 * (sizes.0 + 1) - sizes.1) sizes.1 sizes.1 loaded
  ok (record { op = op; mode = mode; sk = record { rd_key = expanded; rounds = sizes.0 } })

unfoldable pub aes_ecb : Option Context → Option (List ℕ) → Bool → Result (List ℕ)
aes_ecb ctx input output = do
  c ← not_null ctx
  check (c.mode == ecb_mode) invalid_param
  src ← not_null input
  check (round_up (length src) 16 == length src) invalid_param
  check output null_param
  ok (ecb_loop 16 (aes_crypt c.op c.sk) (length src / 16) src)

-- The output, and `iv` as it is left.
unfoldable pub aes_cbc :
    Option Context → Option (List ℕ) → Option (List ℕ) → Bool → Result (List ℕ × List ℕ)
aes_cbc ctx input iv output = do
  c ← not_null ctx
  check (c.mode == cbc_mode) invalid_param
  src ← not_null input
  check (round_up (length src) 16 == length src) invalid_param
  v ← not_null iv
  check output null_param
  check (is_op c.op) invalid_param
  ok (cbc_loop 16 (aes_crypt c.op c.sk) c.op (length src / 16) src v)

-- `iv_offset` is not checked for NULL.
unfoldable pub aes_cfb128 :
    Option Context → Option (List ℕ) → Option (List ℕ) → ℕ → Bool → Result Stream
aes_cfb128 ctx input iv iv_offset output = do
  c ← not_null ctx
  check (c.mode == cfb_mode) invalid_param
  src ← not_null input
  v ← not_null iv
  check (ltb iv_offset 16) invalid_param
  check output null_param
  check (is_op c.op) invalid_param
  ok (cfb_loop 16 (aes_crypt 1 c.sk) c.op src v iv_offset)

unfoldable pub aes_ofb128 :
    Option Context → Option (List ℕ) → Option (List ℕ) → ℕ → Bool → Result Stream
aes_ofb128 ctx input iv iv_offset output = do
  c ← not_null ctx
  check (c.mode == ofb_mode) invalid_param
  src ← not_null input
  v ← not_null iv
  check (ltb iv_offset 16) invalid_param
  check output null_param
  check (is_op c.op) invalid_param
  ok (ofb_loop 16 (aes_crypt 1 c.sk) src v iv_offset)

-- `nonce[0] += 1; if (nonce[0] == 0) nonce[1] += 1;`
abbrev pub bump128 : ℕ × ℕ → ℕ × ℕ
bump128 nonce =
    let low = (nonce.0 + 1) % 2 ^ 64 in (low, if low == 0 then (nonce.1 + 1) % 2 ^ 64 else nonce.1)

abbrev pub nonce_bytes : ℕ × ℕ → List ℕ
nonce_bytes nonce = to_bytes 8 nonce.0 ++ to_bytes 8 nonce.1

-- `nonce` is not checked for NULL.
unfoldable pub aes_ctr :
    Option Context
    → Option (List ℕ)
    → ℕ × ℕ
    → Option ℕ
    → Option (List ℕ)
    → Bool
    → Result (Counter (ℕ × ℕ))
aes_ctr ctx input nonce nonce_offset stream_block output = do
  c ← not_null ctx
  check (c.mode == ctr_mode) invalid_param
  src ← not_null input
  offset ← not_null nonce_offset
  check (ltb offset 16) invalid_param
  block ← not_null stream_block
  check output null_param
  check (is_op c.op) invalid_param
  ok (ctr_loop 16 (aes_crypt 1 c.sk) bump128 nonce_bytes src nonce block offset)
