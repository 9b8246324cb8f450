-- ===== src/Crypt/Aes/Tests.antt =====
-- Runs of aes.c on the example of FIPS 197, and its theorems at concrete inputs.
use muggle_cc.Base.{ℕ, ◌≡◌, refl, some, true, List, [], ◌∷◌, ◌-◌, ◌^◌, replicate, arith}
use muggle_cc.Crypt.Modes.{ok, err, ecb_loop, key_size, Stream, Counter}
use muggle_cc.Crypt.Modes.Laws.{IsText}
use muggle_cc.Bits.Bytes.{AreBytes}
use muggle_cc.Crypt.InternalAes.Inverse.{Decrypts, aes_decrypt-aes_encrypt}
use muggle_cc.Crypt.Aes.Keys.{Keyed}
use muggle_cc.Crypt.Aes.Decrypt.{aes_blocks_undone, aes_streams_undone}
use muggle_cc.Crypt.InternalAes.{
  Subkeys, aes_encrypt, encrypt_round, encrypt_last, mix_entry, galois_mul, aes_mix_column, double,
  aes_add_round_key, aes_sub_bytes, aes_shift_rows, s_muggle_aes_mix_column,
}
use muggle_cc.Crypt.Aes.{
  Context, transpose, aes_set_key, aes_ecb, aes_crypt, aes_cbc, aes_cfb128, aes_ofb128, aes_ctr,
  load_loop, expand_loop, key_temp,
}

abbrev blank : Context
blank = record { op = 7; mode = 7; sk = record { rd_key = replicate 60 7; rounds = 7 } }

abbrev key : List ℕ
key = 0 ∷ 1 ∷ 2 ∷ 3 ∷ 4 ∷ 5 ∷ 6 ∷ 7 ∷ 8 ∷ 9 ∷ 10 ∷ 11 ∷ 12 ∷ 13 ∷ 14 ∷ 15 ∷ []

abbrev text : List ℕ
text = 0 ∷ 17 ∷ 34 ∷ 51 ∷ 68 ∷ 85 ∷ 102 ∷ 119 ∷ 136 ∷ 153 ∷ 170 ∷ 187 ∷ 204 ∷ 221 ∷ 238 ∷ 255 ∷ []

-- The context that `muggle_aes_set_key` makes.
context : ℕ → ℕ → Context
context op mode = elim (aes_set_key op mode (some key) 128 (some blank)) [
  | ok c ↦ c
  | err e ↦ blank
]

fips197_runs :
    aes_ecb (some (context 1 0)) (some text) true
    ≡ ok (
        105 ∷ 196 ∷ 224 ∷ 216 ∷ 106 ∷ 123 ∷ 4 ∷ 48 ∷ 216 ∷ 205 ∷ 183 ∷ 128 ∷ 112 ∷ 180 ∷ 197 ∷ 90
        ∷ [])
unfolding context aes_set_key aes_ecb ecb_loop aes_crypt transpose aes_encrypt encrypt_last
    aes_add_round_key aes_shift_rows aes_sub_bytes encrypt_round aes_mix_column mix_entry galois_mul
    s_muggle_aes_mix_column double expand_loop load_loop key_temp
fips197_runs = refl

key_size_refused : aes_set_key 1 0 (some key) 100 (some blank) ≡ err key_size
unfolding aes_set_key
key_size_refused = refl

abbrev zero_key : Subkeys
zero_key = record { rd_key = replicate 60 0; rounds = 14 }

ecb_contexts : Keyed 0 key (context 1 0) (context 0 0)
unfolding context aes_set_key
ecb_contexts = record { bits = 128; old = blank; to_encrypt = refl; to_decrypt = refl }

cbc_contexts : Keyed 1 key (context 1 1) (context 0 1)
unfolding context aes_set_key
cbc_contexts = record { bits = 128; old = blank; to_encrypt = refl; to_decrypt = refl }

cfb_contexts : Keyed 2 key (context 1 2) (context 0 2)
unfolding context aes_set_key
cfb_contexts = record { bits = 128; old = blank; to_encrypt = refl; to_decrypt = refl }

ofb_contexts : Keyed 3 key (context 1 3) (context 0 3)
unfolding context aes_set_key
ofb_contexts = record { bits = 128; old = blank; to_encrypt = refl; to_decrypt = refl }

ctr_contexts : Keyed 4 key (context 1 4) (context 0 4)
unfolding context aes_set_key
ctr_contexts = record { bits = 128; old = blank; to_encrypt = refl; to_decrypt = refl }

bytes_of_text : AreBytes text
bytes_of_text = ground arith

aes_decrypt-aes_encrypt_example : Decrypts zero_key text
aes_decrypt-aes_encrypt_example = aes_decrypt-aes_encrypt zero_key text refl (refl, ground arith)

text-IsText : IsText 16 text
text-IsText = record { small = omega arith; whole = refl; bytes = bytes_of_text }

aes_blocks_undone_example :
    ((out : List ℕ) × (aes_ecb (some (context 1 0)) (some text) true ≡ ok out)
      × (aes_ecb (some (context 0 0)) (some out) true ≡ ok text))
    × ((out iv' : List ℕ) × (aes_cbc (some (context 1 1)) (some text) (some text) true
          ≡ ok (out, iv'))
        × (aes_cbc (some (context 0 1)) (some out) (some text) true ≡ ok (text, iv')))
aes_blocks_undone_example =
    aes_blocks_undone key (context 1 0) (context 0 0) (context 1 1) (context 0 1) text text
      ecb_contexts cbc_contexts text-IsText (refl, ground arith)

aes_streams_undone_example :
    ((r : Stream) × (aes_cfb128 (some (context 1 2)) (some text) (some key) 3 true ≡ ok r)
      × (aes_cfb128 (some (context 0 2)) (some r.output) (some key) 3 true
          ≡ ok (record r { output = text })))
    × ((r : Stream) × (aes_ofb128 (some (context 1 3)) (some text) (some key) 3 true ≡ ok r)
        × (aes_ofb128 (some (context 0 3)) (some r.output) (some key) 3 true
            ≡ ok (record r { output = text })))
    × ((r : Counter (ℕ × ℕ)) × (aes_ctr
            (some (context 1 4))
            (some text)
            (9, 2 ^ 64 - 1)
            (some 3)
            (some key)
            true
          ≡ ok r)
        × (aes_ctr (some (context 0 4)) (some r.output) (9, 2 ^ 64 - 1) (some 3) (some key) true
            ≡ ok (record r { output = text })))
aes_streams_undone_example =
    aes_streams_undone key (context 1 2) (context 0 2) (context 1 3) (context 0 3) (context 1 4)
      (context 0 4) text key (9, 2 ^ 64 - 1) 3 cfb_contexts ofb_contexts ctr_contexts (omega arith)
