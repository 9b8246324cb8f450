-- ===== src/Crypt/InternalAes/Columns.antt =====
-- The two matrices that mix the columns are inverse.
use muggle_cc.Base.{
  ℕ, zero, suc, ◌+◌, ◌*◌, ◌/◌, ◌%◌, ◌<◌, ◌≡◌, refl, sym, ap, ◌∙◌, arith, true, if◌then◌else◌, ◌==◌,
  ==_iff, List, [], ◌∷◌, length, all_below, all_below-true, bit_xor,
}
use muggle_cc.Bits.Bytes.{AreBytes}
use muggle_cc.Bits.Xor.{bit_xor_medial, bit_xor-zero, zero-bit_xor, bit_xor-lt-pow}
use muggle_cc.Crypt.Modes.Laws.{IsBytes}
use muggle_cc.Crypt.InternalAes.{
  at, xor4, galois_mul, double, mix_entry, mix_loop, aes_mix_column, aes_inv_mix_column,
  s_muggle_aes_mix_column, s_muggle_aes_inv_mix_column,
}
use muggle_cc.Crypt.InternalAes.Field.{galois_mul-bit_xor, galois_mul-lt}

pub xor4-lt : (a b c d : ℕ) → a < 256 → b < 256 → c < 256 → d < 256 → xor4 a b c d < 256
xor4-lt a b c d ha hb hc hd =
    bit_xor-lt-pow 8 (bit_xor (bit_xor a b) c) d
      (bit_xor-lt-pow 8 (bit_xor a b) c (bit_xor-lt-pow 8 a b ha hb) hc) hd

xor4_medial :
    (a b c d a' b' c' d' : ℕ)
    → bit_xor (xor4 a b c d) (xor4 a' b' c' d')
      ≡ xor4 (bit_xor a a') (bit_xor b b') (bit_xor c c') (bit_xor d d')
xor4_medial a b c d a' b' c' d' =
    bit_xor_medial (bit_xor (bit_xor a b) c) d (bit_xor (bit_xor a' b') c') d'
    ∙ ap (λ t. bit_xor t (bit_xor d d'))
        (bit_xor_medial (bit_xor a b) c (bit_xor a' b') c'
          ∙ ap (λ t. bit_xor t (bit_xor c c')) (bit_xor_medial a b a' b'))

-- Rows and columns of a square of terms.
xor4_transpose :
    (a0 b0 c0 d0 a1 b1 c1 d1 a2 b2 c2 d2 a3 b3 c3 d3 : ℕ)
    → xor4 (xor4 a0 b0 c0 d0) (xor4 a1 b1 c1 d1) (xor4 a2 b2 c2 d2) (xor4 a3 b3 c3 d3)
      ≡ xor4 (xor4 a0 a1 a2 a3) (xor4 b0 b1 b2 b3) (xor4 c0 c1 c2 c3) (xor4 d0 d1 d2 d3)
xor4_transpose a0 b0 c0 d0 a1 b1 c1 d1 a2 b2 c2 d2 a3 b3 c3 d3 =
    ap (λ t. bit_xor (bit_xor t (xor4 a2 b2 c2 d2)) (xor4 a3 b3 c3 d3))
      (xor4_medial a0 b0 c0 d0 a1 b1 c1 d1)
    ∙ ap (λ t. bit_xor t (xor4 a3 b3 c3 d3))
        (xor4_medial (bit_xor a0 a1) (bit_xor b0 b1) (bit_xor c0 c1) (bit_xor d0 d1) a2 b2 c2 d2)
    ∙ xor4_medial (bit_xor (bit_xor a0 a1) a2) (bit_xor (bit_xor b0 b1) b2)
        (bit_xor (bit_xor c0 c1) c2) (bit_xor (bit_xor d0 d1) d2) a3 b3 c3 d3

galois_mul-xor4 :
    (k a b c d : ℕ)
    → a < 256
    → b < 256
    → c < 256
    → d < 256
    → galois_mul k (xor4 a b c d)
      ≡ xor4 (galois_mul k a) (galois_mul k b) (galois_mul k c) (galois_mul k d)
galois_mul-xor4 k a b c d ha hb hc hd =
    let ab = bit_xor-lt-pow 8 a b ha hb in
    let abc = bit_xor-lt-pow 8 (bit_xor a b) c ab hc in
    galois_mul-bit_xor k (bit_xor (bit_xor a b) c) d abc hd
    ∙ ap (λ t. bit_xor t (galois_mul k d))
        (galois_mul-bit_xor k (bit_xor a b) c ab hc
          ∙ ap (λ t. bit_xor t (galois_mul k c)) (galois_mul-bit_xor k a b ha hb))

-- Entry (`i`, `l`) of the product of the matrices, applied to a byte.
product_entry : ℕ → ℕ → ℕ → ℕ
product_entry i l b =
    let term = λ (k : ℕ).
      galois_mul (at s_muggle_aes_inv_mix_column (i * 4 + k))
        (galois_mul (at s_muggle_aes_mix_column (k * 4 + l)) b) in
    xor4 (term 0) (term 1) (term 2) (term 3)

product_table :
    all_below 16 (λ idx.
      all_below 256
        (λ b. product_entry (idx / 4) (idx % 4) b == (if idx / 4 == idx % 4 then b else 0)))
    ≡ true
unfolding all_below product_entry galois_mul double s_muggle_aes_inv_mix_column
    s_muggle_aes_mix_column
product_table = refl

product_entry-eq :
    (idx b : ℕ)
    → idx < 16
    → b < 256
    → product_entry (idx / 4) (idx % 4) b ≡ (if idx / 4 == idx % 4 then b else 0)
product_entry-eq idx b h l =
    (==_iff _ _).0 (all_below-true 256 _ b (all_below-true 16 _ idx product_table h) l)

-- The entry of row `i` that a column `a`, `b`, `c`, `d` ends with.
row : (i a b c d : ℕ) → ℕ
row i a b c d =
    xor4 (product_entry i 0 a) (product_entry i 1 b) (product_entry i 2 c) (product_entry i 3 d)

row-zero : (a b c d : ℕ) → a < 256 → b < 256 → c < 256 → d < 256 → row 0 a b c d ≡ a
unfolding row
row-zero a b c d ha hb hc hd = simp (
  product_entry-eq 0 a (omega arith) ha,
  product_entry-eq 1 b (omega arith) hb,
  product_entry-eq 2 c (omega arith) hc,
  product_entry-eq 3 d (omega arith) hd,
  bit_xor-zero,
)

row-one : (a b c d : ℕ) → a < 256 → b < 256 → c < 256 → d < 256 → row 1 a b c d ≡ b
unfolding row
row-one a b c d ha hb hc hd = simp (
  product_entry-eq 4 a (omega arith) ha,
  product_entry-eq 5 b (omega arith) hb,
  product_entry-eq 6 c (omega arith) hc,
  product_entry-eq 7 d (omega arith) hd,
  bit_xor-zero,
  zero-bit_xor,
)

row-two : (a b c d : ℕ) → a < 256 → b < 256 → c < 256 → d < 256 → row 2 a b c d ≡ c
unfolding row
row-two a b c d ha hb hc hd = simp (
  product_entry-eq 8 a (omega arith) ha,
  product_entry-eq 9 b (omega arith) hb,
  product_entry-eq 10 c (omega arith) hc,
  product_entry-eq 11 d (omega arith) hd,
  bit_xor-zero,
  zero-bit_xor,
)

row-three : (a b c d : ℕ) → a < 256 → b < 256 → c < 256 → d < 256 → row 3 a b c d ≡ d
unfolding row
row-three a b c d ha hb hc hd = simp (
  product_entry-eq 12 a (omega arith) ha,
  product_entry-eq 13 b (omega arith) hb,
  product_entry-eq 14 c (omega arith) hc,
  product_entry-eq 15 d (omega arith) hd,
  bit_xor-zero,
  zero-bit_xor,
)

-- What mixing makes of a column in row `k`.
mixed : (k a b c d : ℕ) → ℕ
mixed k a b c d =
    xor4 (galois_mul (at s_muggle_aes_mix_column (k * 4 + 0)) a)
      (galois_mul (at s_muggle_aes_mix_column (k * 4 + 1)) b)
      (galois_mul (at s_muggle_aes_mix_column (k * 4 + 2)) c)
      (galois_mul (at s_muggle_aes_mix_column (k * 4 + 3)) d)

module _ (a b c d : ℕ) (ha : a < 256) (hb : b < 256) (hc : c < 256) (hd : d < 256) where
  mul-mixed :
      (m k : ℕ)
      → galois_mul m (mixed k a b c d)
        ≡ xor4
            (galois_mul m (galois_mul (at s_muggle_aes_mix_column (k * 4 + 0)) a))
            (galois_mul m (galois_mul (at s_muggle_aes_mix_column (k * 4 + 1)) b))
            (galois_mul m (galois_mul (at s_muggle_aes_mix_column (k * 4 + 2)) c))
            (galois_mul m (galois_mul (at s_muggle_aes_mix_column (k * 4 + 3)) d))
  unfolding mixed
  mul-mixed m k =
      galois_mul-xor4 m _ _ _ _ (galois_mul-lt _ a ha) (galois_mul-lt _ b hb) (galois_mul-lt _ c hc)
        (galois_mul-lt _ d hd)

  unmixed-eq-row :
      (i : ℕ)
      → xor4
          (galois_mul (at s_muggle_aes_inv_mix_column (i * 4 + 0)) (mixed 0 a b c d))
          (galois_mul (at s_muggle_aes_inv_mix_column (i * 4 + 1)) (mixed 1 a b c d))
          (galois_mul (at s_muggle_aes_inv_mix_column (i * 4 + 2)) (mixed 2 a b c d))
          (galois_mul (at s_muggle_aes_inv_mix_column (i * 4 + 3)) (mixed 3 a b c d))
        ≡ row i a b c d
  unfolding row product_entry
  unmixed-eq-row i =
      let m = λ (k : ℕ). at s_muggle_aes_inv_mix_column (i * 4 + k) in
      simp (mul-mixed (m 0) 0, mul-mixed (m 1) 1, mul-mixed (m 2) 2, mul-mixed (m 3) 3)
        (xor4_transpose _ _ _ _ _ _ _ _ _ _ _ _ _ _ _ _)

at-mix_loop :
    (n idx : ℕ) (m s : List ℕ) (t : ℕ)
    → t < n
    → at (mix_loop n idx m s) t ≡ mix_entry m s ((idx + t) / 4) ((idx + t) % 4)
unfolding mix_loop
at-mix_loop zero idx m s t h = absurd (omega arith)
at-mix_loop (suc n) idx m s zero h = ap (λ k. mix_entry m s (k / 4) (k % 4)) (omega arith)
at-mix_loop (suc n) idx m s (suc t) h =
    at-mix_loop n (suc idx) m s t (omega arith)
    ∙ ap (λ k. mix_entry m s (k / 4) (k % 4)) (omega arith)

pub length-mix_loop : (n idx : ℕ) (m s : List ℕ) → length (mix_loop n idx m s) ≡ n
unfolding mix_loop
length-mix_loop zero idx m s = refl
length-mix_loop (suc n) idx m s = ap suc (length-mix_loop n (suc idx) m s)

at-lt : (s : List ℕ) (i : ℕ) → AreBytes s → at s i < 256
at-lt [] i h = omega arith
at-lt (x ∷ s) zero h = h.0
at-lt (x ∷ s) (suc i) h = at-lt s i h.1

-- Lists of bytes with the same entries.
at_ext : (a b : List ℕ) → length a ≡ length b → ((i : ℕ) → i < length a → at a i ≡ at b i) → a ≡ b
at_ext [] [] h same = refl
at_ext [] (y ∷ b) h same = absurd (omega arith)
at_ext (x ∷ a) [] h same = absurd (omega arith)
at_ext (x ∷ a) (y ∷ b) h same =
    cc (same 0 (omega arith), at_ext a b (omega arith) (λ i l. same (suc i) (omega arith)))

pub mix_loop-AreBytes : (n idx : ℕ) (m s : List ℕ) → AreBytes s → AreBytes (mix_loop n idx m s)
unfolding mix_loop mix_entry
mix_loop-AreBytes zero idx m s h = tt
mix_loop-AreBytes (suc n) idx m s h = (
  xor4-lt _ _ _ _ (galois_mul-lt _ _ (at-lt s (0 * 4 + idx % 4) h))
      (galois_mul-lt _ _ (at-lt s (1 * 4 + idx % 4) h))
      (galois_mul-lt _ _ (at-lt s (2 * 4 + idx % 4) h))
      (galois_mul-lt _ _ (at-lt s (3 * 4 + idx % 4) h)),
  mix_loop-AreBytes n (suc idx) m s h,
)

module _ (s : List ℕ) (bytes : AreBytes s) (j : ℕ) (column : j < 4) where
  at-mix_column :
      (k : ℕ)
      → k < 4
      → at (aes_mix_column s) (k * 4 + j)
        ≡ mixed k (at s (0 * 4 + j)) (at s (1 * 4 + j)) (at s (2 * 4 + j)) (at s (3 * 4 + j))
  unfolding aes_mix_column mixed mix_entry
  at-mix_column k h =
      let quotient : (0 + (k * 4 + j)) / 4 ≡ k = omega arith in
      let remainder : (0 + (k * 4 + j)) % 4 ≡ j = omega arith in
      at-mix_loop 16 0 s_muggle_aes_mix_column s (k * 4 + j) (omega arith)
      ∙ ap (λ q. mix_entry s_muggle_aes_mix_column s q ((0 + (k * 4 + j)) % 4)) quotient
      ∙ ap (λ q. mix_entry s_muggle_aes_mix_column s k q) remainder

  inv_entry-row :
      (i : ℕ)
      → mix_entry s_muggle_aes_inv_mix_column (aes_mix_column s) i j
        ≡ row i (at s (0 * 4 + j)) (at s (1 * 4 + j)) (at s (2 * 4 + j)) (at s (3 * 4 + j))
  unfolding mix_entry
  inv_entry-row i =
      simp
        (
          at-mix_column 0 (omega arith),
          at-mix_column 1 (omega arith),
          at-mix_column 2 (omega arith),
          at-mix_column 3 (omega arith),
        )
        (unmixed-eq-row (at s (0 * 4 + j)) (at s (1 * 4 + j)) (at s (2 * 4 + j)) (at s (3 * 4 + j))
          (at-lt s _ bytes) (at-lt s _ bytes) (at-lt s _ bytes) (at-lt s _ bytes) i)

  row-at :
      (i : ℕ)
      → i < 4
      → row i (at s (0 * 4 + j)) (at s (1 * 4 + j)) (at s (2 * 4 + j)) (at s (3 * 4 + j))
        ≡ at s (i * 4 + j)
  row-at zero h =
      row-zero _ _ _ _ (at-lt s _ bytes) (at-lt s _ bytes) (at-lt s _ bytes) (at-lt s _ bytes)
  row-at (suc zero) h =
      row-one _ _ _ _ (at-lt s _ bytes) (at-lt s _ bytes) (at-lt s _ bytes) (at-lt s _ bytes)
  row-at (suc (suc zero)) h =
      row-two _ _ _ _ (at-lt s _ bytes) (at-lt s _ bytes) (at-lt s _ bytes) (at-lt s _ bytes)
  row-at (suc (suc (suc zero))) h =
      row-three _ _ _ _ (at-lt s _ bytes) (at-lt s _ bytes) (at-lt s _ bytes) (at-lt s _ bytes)
  row-at (suc (suc (suc (suc i)))) h = absurd (omega arith)

-- Mixing the columns and mixing them back gives the state.
pub aes_inv_mix_column-aes_mix_column :
    (s : List ℕ) → IsBytes 16 s → aes_inv_mix_column (aes_mix_column s) ≡ s
unfolding aes_inv_mix_column
aes_inv_mix_column-aes_mix_column s (size, bytes) =
    let out = mix_loop 16 0 s_muggle_aes_inv_mix_column (aes_mix_column s) in
    let length_out = length-mix_loop 16 0 s_muggle_aes_inv_mix_column (aes_mix_column s) in
    at_ext out s (length_out ∙ sym size) (λ i h.
      let start : 0 + i ≡ i = omega arith in
      let place : i / 4 * 4 + i % 4 ≡ i = omega arith in
      at-mix_loop 16 0 s_muggle_aes_inv_mix_column (aes_mix_column s) i (omega (arith, length_out))
      ∙ ap (λ k. mix_entry s_muggle_aes_inv_mix_column (aes_mix_column s) (k / 4) (k % 4)) start
      ∙ inv_entry-row s bytes (i % 4) (omega arith) (i / 4)
      ∙ row-at s bytes (i % 4) (omega arith) (i / 4) (omega (arith, length_out))
      ∙ ap (at s) place)
