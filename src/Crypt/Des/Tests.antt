-- ===== src/Crypt/Des/Tests.antt =====
-- Runs of des.c, and its theorems at concrete inputs.
use muggle_cc.Base.{ℕ, ◌≡◌, refl, some, true, List, [], ◌∷◌, replicate, arith}
use muggle_cc.Crypt.InternalDes.{Block, Subkey, des_fp, des_ip, des_f, des_pc1, des_pc2}
use muggle_cc.Crypt.Modes.{ok, err, invalid_param, ecb_loop, Stream, Counter}
use muggle_cc.Crypt.Modes.Laws.{IsText}
use muggle_cc.Bits.Bytes.{AreBytes}
use muggle_cc.Crypt.Des.{
  Context, des_set_key, des_crypt, des_crypt_bytes, des_ecb, des_cbc, des_cfb64, des_ctr, des_ofb64,
  bytes_of_block, block_of_bytes, des_set_key_inner, shift_block,
}
use muggle_cc.Crypt.Des.Keys.{Keyed}
use muggle_cc.Crypt.Des.Decrypt.{des_blocks_undone, des_streams_undone}

abbrev blank : Context
blank = record { op = 7; mode = 7; sk = replicate 16 (replicate 8 7) }

-- 133457799BBCDFF1
abbrev key : List ℕ
key = 19 ∷ 52 ∷ 87 ∷ 121 ∷ 155 ∷ 188 ∷ 223 ∷ 241 ∷ []

-- 0123456789ABCDEF
abbrev text : List ℕ
text = 1 ∷ 35 ∷ 69 ∷ 103 ∷ 137 ∷ 171 ∷ 205 ∷ 239 ∷ []

-- The context that `muggle_des_set_key` makes.
context : ℕ → ℕ → Context
context op mode = elim (des_set_key op mode (some key) (some blank)) [ ok c ↦ c | err e ↦ blank ]

-- Not 85E813540F0AB405, the block that the standard has.
des_run :
    des_ecb (some (context 1 0)) (some text) true
    ≡ ok (149 ∷ 194 ∷ 40 ∷ 217 ∷ 96 ∷ 71 ∷ 231 ∷ 161 ∷ [])
unfolding context des_set_key des_ecb des_crypt_bytes ecb_loop bytes_of_block des_crypt des_fp
    des_set_key_inner des_ip block_of_bytes des_f des_pc2 shift_block des_pc1
des_run = refl

key_refused : des_set_key 1 5 (some key) (some blank) ≡ err invalid_param
unfolding des_set_key
key_refused = refl

size_refused : des_ecb (some (context 1 0)) (some (1 ∷ 2 ∷ 3 ∷ [])) true ≡ err invalid_param
unfolding context des_set_key des_ecb
size_refused = refl

abbrev zero_key : List Subkey
zero_key = replicate 16 (replicate 8 0)

abbrev some_block : Block
some_block = record { l = 1732584193; h = 4023233417 }

ecb_contexts : Keyed 0 key (context 1 0) (context 0 0)
unfolding context des_set_key
ecb_contexts = record {
  old = blank;
  old' = blank;
  full = refl;
  full' = refl;
  to_encrypt = refl;
  to_decrypt = refl;
}

cbc_contexts : Keyed 1 key (context 1 1) (context 0 1)
unfolding context des_set_key
cbc_contexts = record {
  old = blank;
  old' = blank;
  full = refl;
  full' = refl;
  to_encrypt = refl;
  to_decrypt = refl;
}

cfb_contexts : Keyed 2 key (context 1 2) (context 0 2)
unfolding context des_set_key
cfb_contexts = record {
  old = blank;
  old' = blank;
  full = refl;
  full' = refl;
  to_encrypt = refl;
  to_decrypt = refl;
}

ofb_contexts : Keyed 3 key (context 1 3) (context 0 3)
unfolding context des_set_key
ofb_contexts = record {
  old = blank;
  old' = blank;
  full = refl;
  full' = refl;
  to_encrypt = refl;
  to_decrypt = refl;
}

ctr_contexts : Keyed 4 key (context 1 4) (context 0 4)
unfolding context des_set_key
ctr_contexts = record {
  old = blank;
  old' = blank;
  full = refl;
  full' = refl;
  to_encrypt = refl;
  to_decrypt = refl;
}

bytes_of_text : AreBytes text
bytes_of_text = ground arith

text-IsText : IsText 8 text
text-IsText = record { small = omega arith; whole = refl; bytes = bytes_of_text }

des_blocks_undone_example :
    ((out : List ℕ) × (des_ecb (some (context 1 0)) (some text) true ≡ ok out)
      × (des_ecb (some (context 0 0)) (some out) true ≡ ok text))
    × ((out iv' : List ℕ) × (des_cbc (some (context 1 1)) (some text) (some key) true
          ≡ ok (out, iv'))
        × (des_cbc (some (context 0 1)) (some out) (some key) true ≡ ok (text, iv')))
des_blocks_undone_example =
    des_blocks_undone key (context 1 0) (context 0 0) (context 1 1) (context 0 1) text key
      ecb_contexts cbc_contexts text-IsText (refl, ground arith)

des_streams_undone_example :
    ((r : Stream) × (des_cfb64 (some (context 1 2)) (some text) (some key) (some 3) true ≡ ok r)
      × (des_cfb64 (some (context 0 2)) (some r.output) (some key) (some 3) true
          ≡ ok (record r { output = text })))
    × ((r : Stream) × (des_ofb64 (some (context 1 3)) (some text) (some key) (some 3) true ≡ ok r)
        × (des_ofb64 (some (context 0 3)) (some r.output) (some key) (some 3) true
            ≡ ok (record r { output = text })))
    × ((r : Counter ℕ) × (des_ctr (some (context 1 4)) (some text) (some 9) (some 3) (some key) true
          ≡ ok r)
        × (des_ctr (some (context 0 4)) (some r.output) (some 9) (some 3) (some key) true
            ≡ ok (record r { output = text })))
des_streams_undone_example =
    des_streams_undone key (context 1 2) (context 0 2) (context 1 3) (context 0 3) (context 1 4)
      (context 0 4) text key 9 3 cfb_contexts ofb_contexts ctr_contexts (omega arith)
