-- ===== src/Crypt/Modes.antt =====
-- The modes of operation, which muggle/c/crypt/aes.c, des.c and tdes.c share: their parameters'
-- checks and their loops, for a block cipher of `size` bytes. `xor` of the blocks' words is `xor`
-- of their bytes.
pub mod Laws
pub mod Blocks
pub mod Streams
mod Tests
use muggle_cc.Base.{
  ℕ, zero, suc, ◌+◌, ◌-◌, ◌*◌, ◌/◌, ◌%◌, ◌^◌, Bool, true, false, ◌||◌, Option, none, some, List, [],
  ◌∷◌, ◌++◌, length, set, get_or, take, drop, if◌then◌else◌, ◌==◌, bit_xor,
}

-- Of muggle/c/base/err.h.
pub data Error : Type 0 where
  null_param invalid_param key_size : Error

pub data Result (A : Type 0) : Type 0 where
  ok : A → Result A
  err : Error → Result A

infixl 5 ◌>>=◌ ◌>>◌
abbrev pub ◌>>=◌ : {A B : Type 0} → Result A → (A → Result B) → Result B
ok a >>= f = f a
err e >>= f = err e

abbrev pub ◌>>◌ : {B : Type 0} → Result (Unit {0}) → Result B → Result B
m >> k = m >>= λ _. k

-- MUGGLE_CHECK_RET
abbrev pub check : Bool → Error → Result (Unit {0})
check true e = ok tt
check false e = err e

-- MUGGLE_CHECK_RET(p != NULL, MUGGLE_ERR_NULL_PARAM)
abbrev pub not_null : {A : Type 0} → Option A → Result A
not_null none = err null_param
not_null (some a) = ok a

-- MUGGLE_DECRYPT is 0 and MUGGLE_ENCRYPT is 1.
abbrev pub is_op : ℕ → Bool
is_op op = (op == 1) || (op == 0)

-- ROUND_UP_POW_OF_2_MUL in `unsigned int`, for `size` a power of two: the low bits are cleared.
abbrev pub round_up : ℕ → ℕ → ℕ
round_up num_bytes size = let x = (num_bytes + size - 1) % 2 ^ 32 in x - x % size

-- The modes, MUGGLE_BLOCK_CIPHER_MODE_*.
abbrev pub ecb_mode : ℕ
ecb_mode = 0

abbrev pub cbc_mode : ℕ
cbc_mode = 1

abbrev pub cfb_mode : ℕ
cfb_mode = 2

abbrev pub ofb_mode : ℕ
ofb_mode = 3

abbrev pub ctr_mode : ℕ
ctr_mode = 4

-- Exclusive or of blocks.
unfoldable pub xor_block : List ℕ → List ℕ → List ℕ
xor_block [] b = []
xor_block (x ∷ a) [] = x ∷ a
xor_block (x ∷ a) (y ∷ b) = bit_xor x y ∷ xor_block a b

-- What a stream mode leaves: the output, `iv` or the stream block, and the offset in it.
pub record Stream : Type 0 where
  pub output : List ℕ
  pub iv : List ℕ
  pub offset : ℕ

-- The same of the counter mode, whose nonce is of type `N`.
pub record Counter (N : Type 0) : Type 0 where
  pub output : List ℕ
  pub nonce : N
  pub stream_block : List ℕ
  pub offset : ℕ

module _ (size : ℕ) (crypt : List ℕ → List ℕ) where
  -- `n` blocks.
  unfoldable pub ecb_loop : ℕ → List ℕ → List ℕ
  ecb_loop zero input = []
  ecb_loop (suc n) input = crypt (take size input) ++ ecb_loop n (drop size input)

  -- The output, and `iv` as it is left.
  unfoldable pub cbc_encrypt_loop : ℕ → List ℕ → List ℕ → List ℕ × List ℕ
  unfolding xor_block
  cbc_encrypt_loop zero input iv = ([], iv)
  cbc_encrypt_loop (suc n) input iv =
      let block = crypt (xor_block iv (take size input)) in
      let rest = cbc_encrypt_loop n (drop size input) block in (block ++ rest.0, rest.1)

  unfoldable pub cbc_decrypt_loop : ℕ → List ℕ → List ℕ → List ℕ × List ℕ
  unfolding xor_block
  cbc_decrypt_loop zero input iv = ([], iv)
  cbc_decrypt_loop (suc n) input iv =
      let block = take size input in
      let rest = cbc_decrypt_loop n (drop size input) block in
      (xor_block (crypt block) iv ++ rest.0, rest.1)

  abbrev pub cbc_loop : ℕ → ℕ → List ℕ → List ℕ → List ℕ × List ℕ
  cbc_loop op n input iv =
      if op == 1 then cbc_encrypt_loop n input iv else cbc_decrypt_loop n input iv

  unfoldable pub cfb_loop : ℕ → List ℕ → List ℕ → ℕ → Stream
  cfb_loop op [] iv offset = record { output = []; iv = iv; offset = offset }
  cfb_loop op (x ∷ input) iv offset =
      let iv' = if offset == 0 then crypt iv else iv in
      let y = bit_xor x (get_or iv' offset 0) in
      let rest =
        cfb_loop op input (set iv' offset (if op == 1 then y else x)) ((offset + 1) % size) in
      record rest { output = y ∷ rest.output }

  unfoldable pub ofb_loop : List ℕ → List ℕ → ℕ → Stream
  ofb_loop [] iv offset = record { output = []; iv = iv; offset = offset }
  ofb_loop (x ∷ input) iv offset =
      let iv' = if offset == 0 then crypt iv else iv in
      let rest = ofb_loop input iv' ((offset + 1) % size) in
      record rest { output = bit_xor x (get_or iv' offset 0) ∷ rest.output }

  -- `bump` is the increment of the nonce and `bytes` its bytes in memory.
  module _ {N : Type 0} (bump : N → N) (bytes : N → List ℕ) where
    unfoldable pub ctr_loop : List ℕ → N → List ℕ → ℕ → Counter N
    ctr_loop [] nonce block offset = record {
      output = [];
      nonce = nonce;
      stream_block = block;
      offset = offset;
    }
    ctr_loop (x ∷ input) nonce block offset =
        let nonce' = if offset == 0 then bump nonce else nonce in
        let block' = if offset == 0 then crypt (bytes nonce') else block in
        let rest = ctr_loop input nonce' block' ((offset + 1) % size) in
        record rest { output = bit_xor x (get_or block' offset 0) ∷ rest.output }
