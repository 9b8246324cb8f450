-- ===== src/Crypt/Des/RoundTrip.antt =====
-- What the modes of DES encrypt, they decrypt.
use mathlib.Core.List.{reverse}
use muggle_cc.Base.{
  ℕ, ◌^◌, ◌≡◌, sym, ap, ◌∙◌, arith, List, ◌++◌, length, take, drop, length-append, length-take,
  length-drop, take-append-drop, take_all,
}
use muggle_cc.Bits.Bytes.{
  AreBytes, of_bytes, to_bytes, to_bytes-AreBytes, length-to_bytes, to_bytes-of_bytes,
  of_bytes-to_bytes, of_bytes-lt-pow,
}
use muggle_cc.Crypt.InternalDes.{Block, Subkey}
use muggle_cc.Crypt.InternalDes.Permutation.{IsBlock}
use muggle_cc.Crypt.Modes.Laws.{IsBytes, Undoes, append-AreBytes, take-AreBytes, drop-AreBytes}
use muggle_cc.Crypt.Des.{block_of_bytes, bytes_of_block, des_crypt, des_crypt_bytes}
use muggle_cc.Crypt.Des.Feistel.{des_crypt-des_crypt, des_crypt-IsBlock}

block_of_bytes-IsBlock : (a : List ℕ) → IsBytes 8 a → IsBlock (block_of_bytes a)
unfolding block_of_bytes
block_of_bytes-IsBlock a (size, bytes) =
    let low : length (take 4 a) ≡ 4 = omega (arith, length-take 4 a) in
    let high : length (take 4 (drop 4 a)) ≡ 4 =
      omega (arith, length-take 4 (drop 4 a), length-drop 4 a) in
    record {
      low =
          omega
            (arith, of_bytes-lt-pow (take 4 a) (take-AreBytes 4 a bytes), ap (λ n. 256 ^ n) low);
      high = omega (
        arith,
        of_bytes-lt-pow (take 4 (drop 4 a)) (take-AreBytes 4 (drop 4 a) (drop-AreBytes 4 a bytes)),
        ap (λ n. 256 ^ n) high,
      );
    }

bytes_of_block-IsBytes : (b : Block) → IsBytes 8 (bytes_of_block b)
unfolding bytes_of_block
bytes_of_block-IsBytes b = (
  omega (
    arith,
    length-append (to_bytes 4 b.l) (to_bytes 4 b.h),
    length-to_bytes 4 b.l,
    length-to_bytes 4 b.h,
  ),
  append-AreBytes (to_bytes 4 b.l) (to_bytes 4 b.h) (to_bytes-AreBytes 4 b.l)
      (to_bytes-AreBytes 4 b.h),
)

block_of_bytes-bytes_of_block : (b : Block) → IsBlock b → block_of_bytes (bytes_of_block b) ≡ b
unfolding block_of_bytes bytes_of_block to_bytes of_bytes
block_of_bytes-bytes_of_block b v =
    let low : of_bytes (to_bytes 4 b.l) ≡ b.l = of_bytes-to_bytes 4 b.l (omega (arith, v.low)) in
    let high : of_bytes (to_bytes 4 b.h) ≡ b.h = of_bytes-to_bytes 4 b.h (omega (arith, v.high)) in
    cc (low, high)

bytes_of_block-block_of_bytes : (a : List ℕ) → IsBytes 8 a → bytes_of_block (block_of_bytes a) ≡ a
unfolding block_of_bytes bytes_of_block
bytes_of_block-block_of_bytes a (size, bytes) =
    let low = take 4 a in
    let high = take 4 (drop 4 a) in
    let low_word : to_bytes 4 (of_bytes low) ≡ low =
      word low (omega (arith, length-take 4 a)) (take-AreBytes 4 a bytes) in
    let high_word : to_bytes 4 (of_bytes high) ≡ high =
      word high (omega (arith, length-take 4 (drop 4 a), length-drop 4 a))
        (take-AreBytes 4 (drop 4 a) (drop-AreBytes 4 a bytes)) in
    ap (λ w. w ++ to_bytes 4 (of_bytes high)) low_word
    ∙ ap (λ w. low ++ w) (high_word ∙ take_all 4 (drop 4 a) (omega (arith, length-drop 4 a)))
    ∙ take-append-drop 4 a
  where
    word : (w : List ℕ) → length w ≡ 4 → AreBytes w → to_bytes 4 (of_bytes w) ≡ w
    word w h b = ap (λ n. to_bytes n (of_bytes w)) (sym h) ∙ to_bytes-of_bytes w b

-- The cipher on bytes.
module _ (ks : List Subkey) where
  pub des_crypt_bytes-Undoes : Undoes 8 (des_crypt_bytes ks) (des_crypt_bytes (reverse ks))
  unfolding des_crypt_bytes
  des_crypt_bytes-Undoes = record {
    block = λ b h. bytes_of_block-IsBytes (des_crypt ks (block_of_bytes b));
    undo = λ b h.
        ap (λ t. bytes_of_block (des_crypt (reverse ks) t))
          (block_of_bytes-bytes_of_block (des_crypt ks (block_of_bytes b))
            (des_crypt-IsBlock ks (block_of_bytes b)))
        ∙ ap bytes_of_block (des_crypt-des_crypt ks (block_of_bytes b) (block_of_bytes-IsBlock b h))
        ∙ bytes_of_block-block_of_bytes b h;
  }
