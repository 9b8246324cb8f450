-- ===== src/Bits/Bytes.antt =====
-- Words in memory, the lowest byte first.
use native.Mathlib.Nat.{pow-suc}
use muggle_cc.Base.{
  ℕ, zero, suc, ◌+◌, ◌*◌, ◌/◌, ◌%◌, ◌^◌, ◌<◌, ◌≡◌, refl, ap, arith, List, [], ◌∷◌, length,
}

unfoldable pub of_bytes : List ℕ → ℕ
of_bytes [] = 0
of_bytes (x ∷ a) = x + of_bytes a * 256

unfoldable pub to_bytes : ℕ → ℕ → List ℕ
to_bytes zero w = []
to_bytes (suc n) w = (w % 256) ∷ to_bytes n (w / 256)

abbrev pub AreBytes : List ℕ → Type 0
AreBytes [] = Unit {0}
AreBytes (x ∷ a) = (x < 256) × AreBytes a

pub to_bytes-AreBytes : (n w : ℕ) → AreBytes (to_bytes n w)
unfolding to_bytes
to_bytes-AreBytes zero w = tt
to_bytes-AreBytes (suc n) w = (omega arith, to_bytes-AreBytes n (w / 256))

pub length-to_bytes : (n w : ℕ) → length (to_bytes n w) ≡ n
unfolding to_bytes
length-to_bytes zero w = refl
length-to_bytes (suc n) w = ap suc (length-to_bytes n (w / 256))

pub to_bytes-of_bytes : (a : List ℕ) → AreBytes a → to_bytes (length a) (of_bytes a) ≡ a
unfolding to_bytes of_bytes
to_bytes-of_bytes [] h = refl
to_bytes-of_bytes (x ∷ a) h =
    let low : (x + of_bytes a * 256) % 256 ≡ x = omega arith in
    let high : (x + of_bytes a * 256) / 256 ≡ of_bytes a = omega arith in
    cc (low, ap (to_bytes (length a)) high, to_bytes-of_bytes a h.1)

pub of_bytes-to_bytes : (n w : ℕ) → w < 256 ^ n → of_bytes (to_bytes n w) ≡ w
unfolding to_bytes of_bytes
of_bytes-to_bytes zero w h = omega arith
of_bytes-to_bytes (suc n) w h =
    omega (arith, pow-suc 256 n, of_bytes-to_bytes n (w / 256) (omega (arith, pow-suc 256 n)))

pub of_bytes-lt-pow : (a : List ℕ) → AreBytes a → of_bytes a < 256 ^ length a
unfolding of_bytes
of_bytes-lt-pow [] h = omega arith
of_bytes-lt-pow (x ∷ a) h = omega (arith, pow-suc 256 (length a), of_bytes-lt-pow a h.1)
