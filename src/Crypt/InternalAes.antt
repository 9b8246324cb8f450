-- ===== src/Crypt/InternalAes.antt =====
-- muggle/c/crypt/internal/internal_aes.c: the parts of AES. The state is a list of 16 bytes, its rows
-- one after another; a word of a key is a number.
pub mod Field
pub mod Columns
pub mod Layers
pub mod Inverse
use muggle_cc.Base.{
  ℕ, zero, suc, ◌+◌, ◌*◌, ◌/◌, ◌%◌, ◌^◌, Bool, true, false, ◌||◌, List, [], ◌∷◌, map, set, get_or,
  drop, if◌then◌else◌, ◌==◌, ltb, bit_and, bit_xor,
}
use muggle_cc.Bits.Bytes.{of_bytes, to_bytes}
use muggle_cc.Crypt.Modes.{Result, ok, err, ◌>>=◌, ◌>>◌, check, invalid_param}

unfoldable pub s_muggle_aes_sbox : List ℕ
s_muggle_aes_sbox =
    99 ∷ 124 ∷ 119 ∷ 123 ∷ 242 ∷ 107 ∷ 111 ∷ 197 ∷ 48 ∷ 1 ∷ 103 ∷ 43 ∷ 254 ∷ 215 ∷ 171 ∷ 118 ∷ 202
    ∷ 130 ∷ 201 ∷ 125 ∷ 250 ∷ 89 ∷ 71 ∷ 240 ∷ 173 ∷ 212 ∷ 162 ∷ 175 ∷ 156 ∷ 164 ∷ 114 ∷ 192 ∷ 183
    ∷ 253 ∷ 147 ∷ 38 ∷ 54 ∷ 63 ∷ 247 ∷ 204 ∷ 52 ∷ 165 ∷ 229 ∷ 241 ∷ 113 ∷ 216 ∷ 49 ∷ 21 ∷ 4 ∷ 199
    ∷ 35 ∷ 195 ∷ 24 ∷ 150 ∷ 5 ∷ 154 ∷ 7 ∷ 18 ∷ 128 ∷ 226 ∷ 235 ∷ 39 ∷ 178 ∷ 117 ∷ 9 ∷ 131 ∷ 44 ∷ 26
    ∷ 27 ∷ 110 ∷ 90 ∷ 160 ∷ 82 ∷ 59 ∷ 214 ∷ 179 ∷ 41 ∷ 227 ∷ 47 ∷ 132 ∷ 83 ∷ 209 ∷ 0 ∷ 237 ∷ 32
    ∷ 252 ∷ 177 ∷ 91 ∷ 106 ∷ 203 ∷ 190 ∷ 57 ∷ 74 ∷ 76 ∷ 88 ∷ 207 ∷ 208 ∷ 239 ∷ 170 ∷ 251 ∷ 67 ∷ 77
    ∷ 51 ∷ 133 ∷ 69 ∷ 249 ∷ 2 ∷ 127 ∷ 80 ∷ 60 ∷ 159 ∷ 168 ∷ 81 ∷ 163 ∷ 64 ∷ 143 ∷ 146 ∷ 157 ∷ 56
    ∷ 245 ∷ 188 ∷ 182 ∷ 218 ∷ 33 ∷ 16 ∷ 255 ∷ 243 ∷ 210 ∷ 205 ∷ 12 ∷ 19 ∷ 236 ∷ 95 ∷ 151 ∷ 68 ∷ 23
    ∷ 196 ∷ 167 ∷ 126 ∷ 61 ∷ 100 ∷ 93 ∷ 25 ∷ 115 ∷ 96 ∷ 129 ∷ 79 ∷ 220 ∷ 34 ∷ 42 ∷ 144 ∷ 136 ∷ 70
    ∷ 238 ∷ 184 ∷ 20 ∷ 222 ∷ 94 ∷ 11 ∷ 219 ∷ 224 ∷ 50 ∷ 58 ∷ 10 ∷ 73 ∷ 6 ∷ 36 ∷ 92 ∷ 194 ∷ 211 ∷ 172
    ∷ 98 ∷ 145 ∷ 149 ∷ 228 ∷ 121 ∷ 231 ∷ 200 ∷ 55 ∷ 109 ∷ 141 ∷ 213 ∷ 78 ∷ 169 ∷ 108 ∷ 86 ∷ 244
    ∷ 234 ∷ 101 ∷ 122 ∷ 174 ∷ 8 ∷ 186 ∷ 120 ∷ 37 ∷ 46 ∷ 28 ∷ 166 ∷ 180 ∷ 198 ∷ 232 ∷ 221 ∷ 116 ∷ 31
    ∷ 75 ∷ 189 ∷ 139 ∷ 138 ∷ 112 ∷ 62 ∷ 181 ∷ 102 ∷ 72 ∷ 3 ∷ 246 ∷ 14 ∷ 97 ∷ 53 ∷ 87 ∷ 185 ∷ 134
    ∷ 193 ∷ 29 ∷ 158 ∷ 225 ∷ 248 ∷ 152 ∷ 17 ∷ 105 ∷ 217 ∷ 142 ∷ 148 ∷ 155 ∷ 30 ∷ 135 ∷ 233 ∷ 206
    ∷ 85 ∷ 40 ∷ 223 ∷ 140 ∷ 161 ∷ 137 ∷ 13 ∷ 191 ∷ 230 ∷ 66 ∷ 104 ∷ 65 ∷ 153 ∷ 45 ∷ 15 ∷ 176 ∷ 84
    ∷ 187 ∷ 22 ∷ []

unfoldable pub s_muggle_aes_inv_sbox : List ℕ
s_muggle_aes_inv_sbox =
    82 ∷ 9 ∷ 106 ∷ 213 ∷ 48 ∷ 54 ∷ 165 ∷ 56 ∷ 191 ∷ 64 ∷ 163 ∷ 158 ∷ 129 ∷ 243 ∷ 215 ∷ 251 ∷ 124
    ∷ 227 ∷ 57 ∷ 130 ∷ 155 ∷ 47 ∷ 255 ∷ 135 ∷ 52 ∷ 142 ∷ 67 ∷ 68 ∷ 196 ∷ 222 ∷ 233 ∷ 203 ∷ 84 ∷ 123
    ∷ 148 ∷ 50 ∷ 166 ∷ 194 ∷ 35 ∷ 61 ∷ 238 ∷ 76 ∷ 149 ∷ 11 ∷ 66 ∷ 250 ∷ 195 ∷ 78 ∷ 8 ∷ 46 ∷ 161
    ∷ 102 ∷ 40 ∷ 217 ∷ 36 ∷ 178 ∷ 118 ∷ 91 ∷ 162 ∷ 73 ∷ 109 ∷ 139 ∷ 209 ∷ 37 ∷ 114 ∷ 248 ∷ 246 ∷ 100
    ∷ 134 ∷ 104 ∷ 152 ∷ 22 ∷ 212 ∷ 164 ∷ 92 ∷ 204 ∷ 93 ∷ 101 ∷ 182 ∷ 146 ∷ 108 ∷ 112 ∷ 72 ∷ 80 ∷ 253
    ∷ 237 ∷ 185 ∷ 218 ∷ 94 ∷ 21 ∷ 70 ∷ 87 ∷ 167 ∷ 141 ∷ 157 ∷ 132 ∷ 144 ∷ 216 ∷ 171 ∷ 0 ∷ 140 ∷ 188
    ∷ 211 ∷ 10 ∷ 247 ∷ 228 ∷ 88 ∷ 5 ∷ 184 ∷ 179 ∷ 69 ∷ 6 ∷ 208 ∷ 44 ∷ 30 ∷ 143 ∷ 202 ∷ 63 ∷ 15 ∷ 2
    ∷ 193 ∷ 175 ∷ 189 ∷ 3 ∷ 1 ∷ 19 ∷ 138 ∷ 107 ∷ 58 ∷ 145 ∷ 17 ∷ 65 ∷ 79 ∷ 103 ∷ 220 ∷ 234 ∷ 151
    ∷ 242 ∷ 207 ∷ 206 ∷ 240 ∷ 180 ∷ 230 ∷ 115 ∷ 150 ∷ 172 ∷ 116 ∷ 34 ∷ 231 ∷ 173 ∷ 53 ∷ 133 ∷ 226
    ∷ 249 ∷ 55 ∷ 232 ∷ 28 ∷ 117 ∷ 223 ∷ 110 ∷ 71 ∷ 241 ∷ 26 ∷ 113 ∷ 29 ∷ 41 ∷ 197 ∷ 137 ∷ 111 ∷ 183
    ∷ 98 ∷ 14 ∷ 170 ∷ 24 ∷ 190 ∷ 27 ∷ 252 ∷ 86 ∷ 62 ∷ 75 ∷ 198 ∷ 210 ∷ 121 ∷ 32 ∷ 154 ∷ 219 ∷ 192
    ∷ 254 ∷ 120 ∷ 205 ∷ 90 ∷ 244 ∷ 31 ∷ 221 ∷ 168 ∷ 51 ∷ 136 ∷ 7 ∷ 199 ∷ 49 ∷ 177 ∷ 18 ∷ 16 ∷ 89
    ∷ 39 ∷ 128 ∷ 236 ∷ 95 ∷ 96 ∷ 81 ∷ 127 ∷ 169 ∷ 25 ∷ 181 ∷ 74 ∷ 13 ∷ 45 ∷ 229 ∷ 122 ∷ 159 ∷ 147
    ∷ 201 ∷ 156 ∷ 239 ∷ 160 ∷ 224 ∷ 59 ∷ 77 ∷ 174 ∷ 42 ∷ 245 ∷ 176 ∷ 200 ∷ 235 ∷ 187 ∷ 60 ∷ 131 ∷ 83
    ∷ 153 ∷ 97 ∷ 23 ∷ 43 ∷ 4 ∷ 126 ∷ 186 ∷ 119 ∷ 214 ∷ 38 ∷ 225 ∷ 105 ∷ 20 ∷ 99 ∷ 85 ∷ 33 ∷ 12 ∷ 125
    ∷ []

unfoldable pub s_muggle_aes_mix_column : List ℕ
s_muggle_aes_mix_column = 2 ∷ 3 ∷ 1 ∷ 1 ∷ 1 ∷ 2 ∷ 3 ∷ 1 ∷ 1 ∷ 1 ∷ 2 ∷ 3 ∷ 3 ∷ 1 ∷ 1 ∷ 2 ∷ []

unfoldable pub s_muggle_aes_inv_mix_column : List ℕ
s_muggle_aes_inv_mix_column =
    14 ∷ 11 ∷ 13 ∷ 9 ∷ 9 ∷ 14 ∷ 11 ∷ 13 ∷ 13 ∷ 9 ∷ 14 ∷ 11 ∷ 11 ∷ 13 ∷ 9 ∷ 14 ∷ []

unfoldable pub s_aes_rcon : List ℕ
s_aes_rcon =
    16777216 ∷ 33554432 ∷ 67108864 ∷ 134217728 ∷ 268435456 ∷ 536870912 ∷ 1073741824 ∷ 2147483648
    ∷ 452984832 ∷ 905969664 ∷ 1811939328 ∷ 3623878656 ∷ 2868903936 ∷ 1291845632 ∷ 2583691264 ∷ []

-- A read in one of the cipher's arrays, at a constant or bounded index that is inside when the array
-- has the size that the C code gives it: a state 16 bytes, a schedule 4 words for each round and 4
-- more, a key as many bytes as its bits take. The 0 past the end stands for no read of such arrays.
abbrev pub at : List ℕ → ℕ → ℕ
at s i = get_or s i 0

-- `t = b & 0x80; b = b << 1; if (t != 0) b = b ^ 0x1b;` of `galois_mul`, on a byte
unfoldable pub double : ℕ → ℕ
double b = if bit_and b 128 == 0 then b * 2 % 256 else bit_xor (b * 2 % 256) 27

-- A byte `a` is 0 after eight rounds.
unfoldable pub galois_loop : ℕ → ℕ → ℕ → ℕ → ℕ
galois_loop zero a b r = r
galois_loop (suc fuel) a b r =
    let next = galois_loop fuel (a / 2) (double b) (if bit_and a 1 == 0 then r else bit_xor r b) in
    if a == 0 then r else next

unfoldable pub galois_mul : ℕ → ℕ → ℕ
unfolding galois_loop
galois_mul a b = galois_loop 8 a b 0

-- `((word) >> shift) & 0xff`
abbrev pub key_byte : ℕ → ℕ → ℕ
key_byte word shift = word / 2 ^ shift % 256

unfoldable pub aes_add_round_key : List ℕ → List ℕ → List ℕ
aes_add_round_key state rd_key =
    bit_xor (at state 0) (key_byte (at rd_key 0) 24)
    ∷ bit_xor (at state 1) (key_byte (at rd_key 1) 24)
    ∷ bit_xor (at state 2) (key_byte (at rd_key 2) 24)
    ∷ bit_xor (at state 3) (key_byte (at rd_key 3) 24)
    ∷ bit_xor (at state 4) (key_byte (at rd_key 0) 16)
    ∷ bit_xor (at state 5) (key_byte (at rd_key 1) 16)
    ∷ bit_xor (at state 6) (key_byte (at rd_key 2) 16)
    ∷ bit_xor (at state 7) (key_byte (at rd_key 3) 16)
    ∷ bit_xor (at state 8) (key_byte (at rd_key 0) 8)
    ∷ bit_xor (at state 9) (key_byte (at rd_key 1) 8)
    ∷ bit_xor (at state 10) (key_byte (at rd_key 2) 8)
    ∷ bit_xor (at state 11) (key_byte (at rd_key 3) 8)
    ∷ bit_xor (at state 12) (key_byte (at rd_key 0) 0)
    ∷ bit_xor (at state 13) (key_byte (at rd_key 1) 0)
    ∷ bit_xor (at state 14) (key_byte (at rd_key 2) 0)
    ∷ bit_xor (at state 15) (key_byte (at rd_key 3) 0)
    ∷ []

unfoldable pub aes_sub_bytes : List ℕ → List ℕ
unfolding s_muggle_aes_sbox
aes_sub_bytes state = map (λ b. at s_muggle_aes_sbox b) state

unfoldable pub aes_inv_sub_bytes : List ℕ → List ℕ
unfolding s_muggle_aes_inv_sbox
aes_inv_sub_bytes state = map (λ b. at s_muggle_aes_inv_sbox b) state

-- `state[to] = state[from]`
abbrev pub copy : List ℕ → ℕ → ℕ → List ℕ
copy state to from = set state to (at state from)

-- Rows 1, 2 and 3 to the left by 1, 2 and 3 places.
unfoldable pub aes_shift_rows : List ℕ → List ℕ
aes_shift_rows s =
    let row1 = set (copy (copy (copy s 4 5) 5 6) 6 7) 7 (at s 4) in
    let half2 = set (copy row1 8 10) 10 (at row1 8) in
    let row2 = set (copy half2 9 11) 11 (at half2 9) in
    set (copy (copy (copy row2 15 14) 14 13) 13 12) 12 (at row2 15)

unfoldable pub aes_inv_shift_rows : List ℕ → List ℕ
aes_inv_shift_rows s =
    let row1 = set (copy (copy (copy s 7 6) 6 5) 5 4) 4 (at s 7) in
    let half2 = set (copy row1 8 10) 10 (at row1 8) in
    let row2 = set (copy half2 9 11) 11 (at half2 9) in
    set (copy (copy (copy row2 12 13) 13 14) 14 15) 15 (at row2 12)

-- `a ^ b ^ c ^ d`
abbrev pub xor4 : ℕ → ℕ → ℕ → ℕ → ℕ
xor4 a b c d = bit_xor (bit_xor (bit_xor a b) c) d

-- What the loops write to `state[i * 4 + j]`.
unfoldable pub mix_entry : List ℕ → List ℕ → ℕ → ℕ → ℕ
mix_entry matrix arr i j =
    xor4 (galois_mul (at matrix (i * 4 + 0)) (at arr (0 * 4 + j)))
      (galois_mul (at matrix (i * 4 + 1)) (at arr (1 * 4 + j)))
      (galois_mul (at matrix (i * 4 + 2)) (at arr (2 * 4 + j)))
      (galois_mul (at matrix (i * 4 + 3)) (at arr (3 * 4 + j)))

-- The entries from `idx` on, `n` of them.
unfoldable pub mix_loop : ℕ → ℕ → List ℕ → List ℕ → List ℕ
mix_loop zero idx matrix arr = []
mix_loop (suc n) idx matrix arr =
    mix_entry matrix arr (idx / 4) (idx % 4) ∷ mix_loop n (suc idx) matrix arr

unfoldable pub aes_mix_column : List ℕ → List ℕ
unfolding mix_loop
aes_mix_column state = mix_loop 16 0 s_muggle_aes_mix_column state

unfoldable pub aes_inv_mix_column : List ℕ → List ℕ
unfolding mix_loop
aes_inv_mix_column state = mix_loop 16 0 s_muggle_aes_inv_mix_column state

unfoldable pub aes_rot_word : ℕ → ℕ
unfolding of_bytes to_bytes
aes_rot_word word = let p = to_bytes 4 word in of_bytes (at p 3 ∷ at p 0 ∷ at p 1 ∷ at p 2 ∷ [])

unfoldable pub aes_sub_word : ℕ → ℕ
unfolding of_bytes to_bytes s_muggle_aes_sbox
aes_sub_word word = of_bytes (map (λ b. at s_muggle_aes_sbox b) (to_bytes 4 word))

-- muggle_aes_subkeys_t
pub record Subkeys : Type 0 where
  pub rd_key : List ℕ
  pub rounds : ℕ

-- A round, with the words of the key from `k` on; the last round mixes no columns.
unfoldable pub encrypt_round : List ℕ → ℕ → List ℕ → List ℕ
encrypt_round rd_key k state =
    aes_add_round_key (aes_mix_column (aes_shift_rows (aes_sub_bytes state))) (drop k rd_key)

unfoldable pub encrypt_last : List ℕ → ℕ → List ℕ → List ℕ
encrypt_last rd_key k state =
    aes_add_round_key (aes_shift_rows (aes_sub_bytes state)) (drop k rd_key)

unfoldable pub decrypt_round : List ℕ → ℕ → List ℕ → List ℕ
decrypt_round rd_key k state =
    aes_inv_sub_bytes
      (aes_inv_shift_rows (aes_inv_mix_column (aes_add_round_key state (drop k rd_key))))

unfoldable pub decrypt_last : List ℕ → ℕ → List ℕ → List ℕ
decrypt_last rd_key k state =
    aes_inv_sub_bytes (aes_inv_shift_rows (aes_add_round_key state (drop k rd_key)))

abbrev pub is_rounds : ℕ → Bool
is_rounds rounds = (rounds == 10) || ((rounds == 12) || (rounds == 14))

-- The state as the call leaves it.
unfoldable pub aes_encrypt : List ℕ → Subkeys → Result (List ℕ)
aes_encrypt state sk =
    let rd = sk.rd_key in
    let r0 = aes_add_round_key state (drop 0 rd) in
    let r3 = encrypt_round rd 12 (encrypt_round rd 8 (encrypt_round rd 4 r0)) in
    let r6 = encrypt_round rd 24 (encrypt_round rd 20 (encrypt_round rd 16 r3)) in
    let r9 = encrypt_round rd 36 (encrypt_round rd 32 (encrypt_round rd 28 r6)) in
    let r11 = encrypt_round rd 44 (encrypt_round rd 40 r9) in
    let r13 = encrypt_round rd 52 (encrypt_round rd 48 r11) in
    check (is_rounds sk.rounds) invalid_param
    >> ok (
        if sk.rounds == 10
        then encrypt_last rd 40 r9
        else if sk.rounds == 12
        then encrypt_last rd 48 r11
        else if sk.rounds == 14
        then encrypt_last rd 56 r13
        else r11)

unfoldable pub aes_decrypt : List ℕ → Subkeys → Result (List ℕ)
aes_decrypt state sk =
    let rd = sk.rd_key in
    let from14 = decrypt_round rd 48 (decrypt_round rd 52 (decrypt_last rd 56 state)) in
    let from12 = if sk.rounds == 14 then from14 else decrypt_last rd 48 state in
    let r9 =
      if ltb 10 sk.rounds
      then decrypt_round rd 40 (decrypt_round rd 44 from12)
      else decrypt_last rd 40 state in
    let r6 = decrypt_round rd 28 (decrypt_round rd 32 (decrypt_round rd 36 r9)) in
    let r3 = decrypt_round rd 16 (decrypt_round rd 20 (decrypt_round rd 24 r6)) in
    let r0 = decrypt_round rd 4 (decrypt_round rd 8 (decrypt_round rd 12 r3)) in
    check (is_rounds sk.rounds) invalid_param >> ok (aes_add_round_key r0 (drop 0 rd))
