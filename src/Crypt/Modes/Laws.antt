-- ===== src/Crypt/Modes/Laws.antt =====
-- Blocks of bytes, exclusive or on them, and what a pair of block ciphers promises.
use muggle_cc.Base.{
  ℕ, zero, suc, ◌<◌, ◌^◌, ◌%◌, ◌≡◌, refl, ap, ◌∙◌, arith, List, [], ◌∷◌, ◌++◌, length, take, drop,
  bit_xor,
}
use muggle_cc.Bits.Bytes.{AreBytes}
use muggle_cc.Bits.Xor.{bit_xor-lt-pow, bit_xor_comm, bit_xor_cancel}
use muggle_cc.Crypt.Modes.{xor_block}

abbrev pub IsBytes : ℕ → List ℕ → Type 0
IsBytes size a = (length a ≡ size) × AreBytes a

-- A text of whole blocks, whose size is an `unsigned int`.
pub record IsText (size : ℕ) (input : List ℕ) : Type 0 where
  pub small : length input < 2 ^ 32
  pub whole : length input % size ≡ 0
  pub bytes : AreBytes input

-- `dec` undoes `enc` on blocks, which `enc` maps to blocks.
pub record Undoes (size : ℕ) (enc dec : List ℕ → List ℕ) : Type 0 where
  pub block : (b : List ℕ) → IsBytes size b → IsBytes size (enc b)
  pub undo : (b : List ℕ) → IsBytes size b → dec (enc b) ≡ b

pub length-xor_block : (a b : List ℕ) → length (xor_block a b) ≡ length a
unfolding xor_block
length-xor_block [] b = refl
length-xor_block (x ∷ a) [] = refl
length-xor_block (x ∷ a) (y ∷ b) = ap suc (length-xor_block a b)

pub xor_block-AreBytes : (a b : List ℕ) → AreBytes a → AreBytes b → AreBytes (xor_block a b)
unfolding xor_block
xor_block-AreBytes [] b h l = tt
xor_block-AreBytes (x ∷ a) [] h l = h
xor_block-AreBytes (x ∷ a) (y ∷ b) h l =
    (bit_xor-lt-pow 8 x y h.0 l.0, xor_block-AreBytes a b h.1 l.1)

-- What is added to the left of a block and then to its right is gone.
pub xor_block_cancel : (a b : List ℕ) → length a ≡ length b → xor_block (xor_block a b) a ≡ b
unfolding xor_block
xor_block_cancel [] [] h = refl
xor_block_cancel [] (y ∷ b) h = absurd (omega arith)
xor_block_cancel (x ∷ a) [] h = absurd (omega arith)
xor_block_cancel (x ∷ a) (y ∷ b) h = cc (
  ap (λ t. bit_xor t x) (bit_xor_comm x y) ∙ bit_xor_cancel y x,
  xor_block_cancel a b (omega arith),
)

pub append-AreBytes : (a b : List ℕ) → AreBytes a → AreBytes b → AreBytes (a ++ b)
append-AreBytes [] b h l = l
append-AreBytes (x ∷ a) b h l = (h.0, append-AreBytes a b h.1 l)

pub take-AreBytes : (n : ℕ) (a : List ℕ) → AreBytes a → AreBytes (take n a)
take-AreBytes zero a h = tt
take-AreBytes (suc n) [] h = tt
take-AreBytes (suc n) (x ∷ a) h = (h.0, take-AreBytes n a h.1)

pub drop-AreBytes : (n : ℕ) (a : List ℕ) → AreBytes a → AreBytes (drop n a)
drop-AreBytes zero a h = h
drop-AreBytes (suc n) [] h = tt
drop-AreBytes (suc n) (x ∷ a) h = drop-AreBytes n a h.1
