-- ===== src/Crypt/Tdes/Tests.antt =====
-- Runs of tdes.c, and its theorems at concrete inputs.
use muggle_cc.Base.{ℕ, ◌≡◌, refl, none, some, true, List, [], ◌∷◌, replicate, arith}
use muggle_cc.Bits.Bytes.{AreBytes}
use muggle_cc.Crypt.InternalDes.{des_fp, des_ip, des_f, des_pc1, des_pc2}
use muggle_cc.Crypt.Modes.{ok, err, null_param, ecb_loop, Stream, Counter}
use muggle_cc.Crypt.Modes.Laws.{IsText}
use muggle_cc.Crypt.Des
use muggle_cc.Crypt.Des.{
  bytes_of_block, block_of_bytes, des_set_key, des_set_key_inner, shift_block,
}
use muggle_cc.Crypt.Tdes.{
  Context, three_keys, tdes_set_key, tdes_crypt, tdes_crypt_bytes, tdes_ecb, tdes_cbc, tdes_cfb64,
  tdes_ofb64, tdes_ctr,
}
use muggle_cc.Crypt.Tdes.Keys.{IsFull, Keyed}
use muggle_cc.Crypt.Tdes.Decrypt.{tdes_blocks_undone, tdes_streams_undone}

abbrev blank_des : Des.Context
blank_des = record { op = 7; mode = 7; sk = replicate 16 (replicate 8 7) }

abbrev blank : Context
blank = record { op = 7; mode = 7; ctx1 = blank_des; ctx2 = blank_des; ctx3 = blank_des }

blank-IsFull : IsFull blank
blank-IsFull = record { full1 = refl; full2 = refl; full3 = refl }

abbrev key1 : List ℕ
key1 = 19 ∷ 52 ∷ 87 ∷ 121 ∷ 155 ∷ 188 ∷ 223 ∷ 241 ∷ []

abbrev key2 : List ℕ
key2 = 8 ∷ 7 ∷ 6 ∷ 5 ∷ 4 ∷ 3 ∷ 2 ∷ 1 ∷ []

abbrev text : List ℕ
text = 1 ∷ 35 ∷ 69 ∷ 103 ∷ 137 ∷ 171 ∷ 205 ∷ 239 ∷ []

-- The context that `muggle_tdes_set_key` makes with the first key for the first and the last pass.
context : ℕ → ℕ → Context
context op mode = elim (tdes_set_key op mode (some key1) (some key2) (some key1) (some blank)) [
  | ok c ↦ c
  | err e ↦ blank
]

no_third_key : tdes_set_key 1 0 (some key1) (some key2) none (some blank) ≡ err null_param
unfolding tdes_set_key
no_third_key = refl

-- One key three times over.
equal_keys : Context
equal_keys = elim (tdes_set_key 1 0 (some key1) (some key1) (some key1) (some blank)) [
  | ok c ↦ c
  | err e ↦ blank
]

-- Not the block that DES makes of the text under that key.
equal_keys_run :
    tdes_ecb (some equal_keys) (some text) true
    ≡ ok (196 ∷ 57 ∷ 181 ∷ 39 ∷ 109 ∷ 244 ∷ 32 ∷ 180 ∷ [])
unfolding equal_keys Des.exchange Des.feistel_loop tdes_set_key three_keys des_set_key tdes_ecb
    tdes_crypt_bytes tdes_crypt ecb_loop bytes_of_block des_fp des_set_key_inner des_ip
    block_of_bytes des_f des_pc2 shift_block des_pc1
equal_keys_run = refl

ecb_contexts : Keyed 0 key1 key2 key1 (context 1 0) (context 0 0)
unfolding context tdes_set_key three_keys des_set_key
ecb_contexts = record {
  old = blank;
  old' = blank;
  full = blank-IsFull;
  full' = blank-IsFull;
  to_encrypt = refl;
  to_decrypt = refl;
}

cbc_contexts : Keyed 1 key1 key2 key1 (context 1 1) (context 0 1)
unfolding context tdes_set_key three_keys des_set_key
cbc_contexts = record {
  old = blank;
  old' = blank;
  full = blank-IsFull;
  full' = blank-IsFull;
  to_encrypt = refl;
  to_decrypt = refl;
}

cfb_contexts : Keyed 2 key1 key2 key1 (context 1 2) (context 0 2)
unfolding context tdes_set_key three_keys des_set_key
cfb_contexts = record {
  old = blank;
  old' = blank;
  full = blank-IsFull;
  full' = blank-IsFull;
  to_encrypt = refl;
  to_decrypt = refl;
}

ofb_contexts : Keyed 3 key1 key2 key1 (context 1 3) (context 0 3)
unfolding context tdes_set_key three_keys des_set_key
ofb_contexts = record {
  old = blank;
  old' = blank;
  full = blank-IsFull;
  full' = blank-IsFull;
  to_encrypt = refl;
  to_decrypt = refl;
}

ctr_contexts : Keyed 4 key1 key2 key1 (context 1 4) (context 0 4)
unfolding context tdes_set_key three_keys des_set_key
ctr_contexts = record {
  old = blank;
  old' = blank;
  full = blank-IsFull;
  full' = blank-IsFull;
  to_encrypt = refl;
  to_decrypt = refl;
}

bytes_of_text : AreBytes text
bytes_of_text = ground arith

text-IsText : IsText 8 text
text-IsText = record { small = omega arith; whole = refl; bytes = bytes_of_text }

tdes_blocks_undone_example :
    ((out : List ℕ) × (tdes_ecb (some (context 1 0)) (some text) true ≡ ok out)
      × (tdes_ecb (some (context 0 0)) (some out) true ≡ ok text))
    × ((out iv' : List ℕ) × (tdes_cbc (some (context 1 1)) (some text) (some key1) true
          ≡ ok (out, iv'))
        × (tdes_cbc (some (context 0 1)) (some out) (some key1) true ≡ ok (text, iv')))
tdes_blocks_undone_example =
    tdes_blocks_undone key1 key2 key1 (context 1 0) (context 0 0) (context 1 1) (context 0 1) text
      key1 ecb_contexts cbc_contexts text-IsText (refl, ground arith)

tdes_streams_undone_example :
    ((r : Stream) × (tdes_cfb64 (some (context 1 2)) (some text) (some key1) (some 3) true ≡ ok r)
      × (tdes_cfb64 (some (context 0 2)) (some r.output) (some key1) (some 3) true
          ≡ ok (record r { output = text })))
    × ((r : Stream) × (tdes_ofb64 (some (context 1 3)) (some text) (some key1) (some 3) true ≡ ok r)
        × (tdes_ofb64 (some (context 0 3)) (some r.output) (some key1) (some 3) true
            ≡ ok (record r { output = text })))
    × ((r : Counter ℕ) × (tdes_ctr
            (some (context 1 4))
            (some text)
            (some 9)
            (some 3)
            (some key1)
            true
          ≡ ok r)
        × (tdes_ctr (some (context 0 4)) (some r.output) (some 9) (some 3) (some key1) true
            ≡ ok (record r { output = text })))
tdes_streams_undone_example =
    tdes_streams_undone key1 key2 key1 (context 1 2) (context 0 2) (context 1 3) (context 0 3)
      (context 1 4) (context 0 4) text key1 9 3 cfb_contexts ofb_contexts ctr_contexts (omega arith)
