-- ===== src/Crypt/Aes/Blocks.antt =====
-- The block cipher of aes.c: bytes column by column, a key set up, and decryption after encryption.
use muggle_cc.Base.{ℕ, ◌≡◌, refl, sym, ap, subst, ◌∙◌, arith, true, some, List, [], ◌∷◌, length}
use muggle_cc.Crypt.InternalAes.{Subkeys, aes_decrypt, is_rounds}
use muggle_cc.Crypt.InternalAes.Inverse.{aes_decrypt-aes_encrypt}
use muggle_cc.Crypt.Modes.{ok}
use muggle_cc.Crypt.Modes.Laws.{IsBytes, Undoes}
use muggle_cc.Crypt.Aes.{Context, transpose, left_in, aes_crypt, aes_set_key}

pub transpose-transpose : (s : List ℕ) → length s ≡ 16 → transpose (transpose s) ≡ s
unfolding transpose
transpose-transpose (a ∷ b ∷ c ∷ d ∷ e ∷ f ∷ g ∷ h ∷ i ∷ j ∷ k ∷ l ∷ m ∷ n ∷ o ∷ p ∷ []) v = refl
transpose-transpose s v = absurd (omega arith)

pub transpose-IsBytes : (s : List ℕ) → IsBytes 16 s → IsBytes 16 (transpose s)
unfolding transpose
transpose-IsBytes (a ∷ b ∷ c ∷ d ∷ e ∷ f ∷ g ∷ h ∷ i ∷ j ∷ k ∷ l ∷ m ∷ n ∷ o ∷ p ∷ []) (v, w) =
    (refl, ground (arith, w))
transpose-IsBytes s (v, w) = absurd (omega arith)

-- With as many rounds as AES has, the one operation undoes the other.
module _ (sk : Subkeys) (r : is_rounds sk.rounds ≡ true) (b : List ℕ) (h : IsBytes 16 b) where
  crypts :
      (c : List ℕ) × IsBytes 16 c
      × (aes_crypt 1 sk b ≡ transpose c)
      × (aes_crypt 0 sk (transpose c) ≡ b)
  unfolding aes_crypt
  crypts =
      let (c, e, v, d) = aes_decrypt-aes_encrypt sk (transpose b) r (transpose-IsBytes b h) in
      (
        c,
        v,
        ap (λ t. transpose (left_in t (transpose b))) e,
        ap (λ t. transpose (left_in (aes_decrypt t sk) t)) (transpose-transpose c v.0)
            ∙ ap (λ t. transpose (left_in t c)) d
            ∙ transpose-transpose b h.0,
      )

pub aes_crypt-Undoes :
    (sk : Subkeys) → is_rounds sk.rounds ≡ true → Undoes 16 (aes_crypt 1 sk) (aes_crypt 0 sk)
aes_crypt-Undoes sk r = record {
  block = λ b h.
      let (c, v, e, d) = crypts sk r b h in subst (IsBytes 16) (sym e) (transpose-IsBytes c v);
  undo = λ b h. let (c, v, e, d) = crypts sk r b h in ap (aes_crypt 0 sk) e ∙ d;
}

-- What `muggle_aes_set_key` fills the key's words with.
pub set_key_rounds :
    (op mode bits : ℕ) (key : List ℕ) (old c : Context)
    → aes_set_key op mode (some key) bits (some old) ≡ ok c
    → (c.op ≡ op) × (c.mode ≡ mode) × (is_rounds c.sk.rounds ≡ true)
unfolding aes_set_key
set_key_rounds op mode bits key old c h = ground (arith, h)

-- The words do not depend on the operation or the mode.
pub set_key_same :
    (op op' mode bits : ℕ) (key : List ℕ) (old c c' : Context)
    → aes_set_key op mode (some key) bits (some old) ≡ ok c
    → aes_set_key op' mode (some key) bits (some old) ≡ ok c'
    → c'.sk ≡ c.sk
unfolding aes_set_key
set_key_same op op' mode bits key old c c' h h' = ground (arith, h, h')
