-- ===== src/Memory/MemoryPool/Copying.antt =====
-- An array that is written from its front on, section by section.
use mathlib.Core.List.{append_assoc, append-nil}
use muggle_cc.Base.{
  ℕ, zero, suc, ◌+◌, ◌≤◌, ◌<◌, ◌≡◌, refl, sym, ap, ◌∙◌, arith, List, [], ◌∷◌, ◌++◌, length,
  length-append, length-set, set, take, drop, slice, overwrite, length-slice, length-overwrite,
  take_all, take-append_le, copy_out-eq, copy_in-eq, store-eq, subst, Yields,
}
use muggle_cc.Memory.MemoryPool.{block_at, fill_loop, copy_section}

-- `m` starts with `front`.
pub record Written (size : ℕ) (front m : List ℕ) : Type 0 where
  pub whole : length m ≡ size
  pub fits : length front ≤ size
  pub starts : take (length front) m ≡ front

-- An array that is written all over.
pub Written-all :
    (size : ℕ) (front m : List ℕ) → Written size front m → length front ≡ size → m ≡ front
Written-all size front m w h =
    sym (take_all (length front) m (omega (arith, w.whole, h))) ∙ w.starts

pub overwrite-Written :
    (size : ℕ) (front m src : List ℕ)
    → Written size front m
    → length front + length src ≤ size
    → Written size (front ++ src) (overwrite (length front) src m)
unfolding overwrite
overwrite-Written size front m src w h =
    let rest = drop (length front + length src) m in
    let both = length-append front src in
    let shape : take (length front) m ++ (src ++ rest) ≡ (front ++ src) ++ rest =
      ap (λ t. t ++ (src ++ rest)) w.starts ∙ sym (append_assoc front src rest) in
    record {
      whole = length-overwrite (length front) src m (omega (arith, w.whole, h)) ∙ w.whole;
      fits = omega (arith, both, h);
      starts =
          ap (take (length (front ++ src))) shape
          ∙ take-append_le (length (front ++ src)) (front ++ src) rest (omega arith)
          ∙ take_all (length (front ++ src)) (front ++ src) (omega arith);
    }

pub copy_section-Written :
    (size : ℕ) (old : List ℕ) (from n offset : ℕ) (front m : List ℕ)
    → Written size front m
    → offset ≡ length front
    → from + n ≤ length old
    → offset + n ≤ size
    → Yields (copy_section old (from, n) offset m) (Written size (front ++ slice from n old))
unfolding copy_section
copy_section-Written size old from n offset front m w o h k =
    let part = slice from n old in
    let long = length-slice from n old h in
    let fits : length front + length part ≤ size = omega (arith, long, k, o) in
    (
      overwrite (length front) part m,
      simp (
        copy_out-eq from n old h,
        o,
        copy_in-eq (length front) part m (omega (arith, fits, w.whole)),
      ),
      overwrite-Written size front m part w fits,
    )

-- The blocks of a buffer, `n` of them from `i` on.
abbrev pub blocks : ℕ → ℕ → ℕ → ℕ → List ℕ
blocks zero i base block_size = []
blocks (suc n) i base block_size = block_at base block_size i ∷ blocks n (suc i) base block_size

pub length-blocks : (n i base block_size : ℕ) → length (blocks n i base block_size) ≡ n
length-blocks zero i base block_size = refl
length-blocks (suc n) i base block_size = ap suc (length-blocks n (suc i) base block_size)

take-set :
    (xs : List ℕ) (i v : ℕ) → i < length xs → take (suc i) (set xs i v) ≡ take i xs ++ (v ∷ [])
take-set [] i v h = absurd (omega arith)
take-set (x ∷ xs) zero v h = refl
take-set (x ∷ xs) (suc i) v h = ap (◌∷◌ x) (take-set xs i v (omega arith))

pub set-Written :
    (size : ℕ) (front m : List ℕ) (i x : ℕ)
    → Written size front m
    → i ≡ length front
    → i < size
    → Written size (front ++ (x ∷ [])) (set m i x)
set-Written size front m i x w e h =
    let both = length-append front (x ∷ []) in
    let one : length (front ++ (x ∷ [])) ≡ suc i = omega (arith, both, e) in
    record {
      whole = length-set m i x ∙ w.whole;
      fits = omega (arith, both, h, e);
      starts =
          ap (λ k. take k (set m i x)) one
          ∙ take-set m i x (omega (arith, w.whole, h))
          ∙ ap (λ t. t ++ (x ∷ [])) (ap (λ k. take k m) e ∙ w.starts);
    }

pub fill_loop-Written :
    (size n i offset base block_size : ℕ) (front m : List ℕ)
    → Written size front m
    → offset + i ≡ length front
    → offset + i + n ≤ size
    → Yields
        (fill_loop n i offset base block_size m)
        (Written size (front ++ blocks n i base block_size))
unfolding fill_loop
fill_loop-Written size zero i offset base block_size front m w e h =
    (m, refl, subst (λ t. Written size t m) (sym (append-nil front)) w)
fill_loop-Written size (suc n) i offset base block_size front m w e h =
    let x = block_at base block_size i in
    let m' = set m (offset + i) x in
    let w' = set-Written size front m (offset + i) x w e (omega (arith, h)) in
    let long = length-append front (x ∷ []) in
    let (r, run, done) =
      fill_loop-Written size n (suc i) offset base block_size (front ++ (x ∷ [])) m' w'
        (omega (arith, long, e)) (omega (arith, h)) in
    (
      r,
      simp (store-eq m (offset + i) x (omega (arith, w.whole, h)), run),
      subst (λ t. Written size t r) (append_assoc front (x ∷ []) (blocks n (suc i) base block_size))
          done,
    )
