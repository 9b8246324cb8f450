-- ===== src/Dsaa/Sort/Segments.antt =====
-- Segments of an array: what they hold, and copies of them.
use muggle_cc.Base.{
  ℕ, zero, suc, ◌+◌, ◌≤◌, ◌<◌, ◌≡◌, refl, ap, ◌∙◌, Bool, List, [], ◌∷◌, length, set, get_or-set,
  length-set, get_elem?-eq-get_or, store-eq, arith, Yields,
}
use muggle_cc.Dsaa.Sort.Gap.{at, one, count}
use muggle_cc.Dsaa.Sort.Merge.{copy_run}

-- How many of the `n` entries from `lo` on satisfy `p`.
unfoldable pub count_in : (ℕ → Bool) → List ℕ → ℕ → ℕ → ℕ
count_in p a lo zero = 0
count_in p a lo (suc n) = one p (at a lo) + count_in p a (suc lo) n

pub count_in_ext :
    (p : ℕ → Bool) (a b : List ℕ) (i j n : ℕ)
    → ((k : ℕ) → k < n → at a (i + k) ≡ at b (j + k))
    → count_in p a i n ≡ count_in p b j n
unfolding count_in
count_in_ext p a b i j zero h = refl
count_in_ext p a b i j (suc n) h =
    let here : at a i ≡ at b j =
      ap (at a) (omega arith) ∙ h 0 (omega arith) ∙ ap (at b) (omega arith) in
    let later =
      count_in_ext p a b (suc i) (suc j) n
        (λ k l. ap (at a) (omega arith) ∙ h (suc k) (omega arith) ∙ ap (at b) (omega arith)) in
    omega (arith, ap (one p) here, later)

pub count_in-add :
    (p : ℕ → Bool) (a : List ℕ) (lo m n : ℕ)
    → count_in p a lo (m + n) ≡ count_in p a lo m + count_in p a (lo + m) n
unfolding count_in
count_in-add p a lo zero n =
    let left : count_in p a lo (0 + n) ≡ count_in p a lo n =
      ap (λ k. count_in p a lo k) (omega arith) in
    let right : count_in p a (lo + 0) n ≡ count_in p a lo n =
      ap (λ k. count_in p a k n) (omega arith) in
    omega (arith, left, right)
count_in-add p a lo (suc m) n =
    let size : suc m + n ≡ suc (m + n) = omega arith in
    let start : suc lo + m ≡ lo + suc m = omega arith in
    omega (
      arith,
      ap (λ k. count_in p a lo k) size,
      ap (λ k. count_in p a k n) start,
      count_in-add p a (suc lo) m n,
    )

count_in-cons :
    (p : ℕ → Bool) (x : ℕ) (a : List ℕ) (lo n : ℕ)
    → count_in p (x ∷ a) (suc lo) n ≡ count_in p a lo n
unfolding count_in
count_in-cons p x a lo zero = refl
count_in-cons p x a lo (suc n) = ap (λ k. one p (at a lo) + k) (count_in-cons p x a (suc lo) n)

pub count-eq-count_in : (p : ℕ → Bool) (a : List ℕ) → count p a ≡ count_in p a 0 (length a)
unfolding count_in
count-eq-count_in p [] = refl
count-eq-count_in p (x ∷ a) = omega (arith, count-eq-count_in p a, count_in-cons p x a 0 (length a))

-- The array `b` is `to` with `n` entries of `from` written over it.
pub record Copied (from : List ℕ) (j : ℕ) (to : List ℕ) (i n : ℕ) (b : List ℕ) : Type 0 where
  pub size : length b ≡ length to
  pub inside : (k : ℕ) → k < n → at b (i + k) ≡ at from (j + k)
  pub before : (k : ℕ) → k < i → at b k ≡ at to k
  pub after : (k : ℕ) → i + n ≤ k → at b k ≡ at to k

pub copy_run-Copied :
    (n : ℕ) (from : List ℕ) (j : ℕ) (to : List ℕ) (i : ℕ)
    → j + n ≤ length from
    → i + n ≤ length to
    → Yields (copy_run n from j to i) (Copied from j to i n)
unfolding copy_run
copy_run-Copied zero from j to i h l = (
  to,
  refl,
  record {
    size = refl;
    inside = λ k lt. absurd (omega arith);
    before = λ k lt. refl;
    after = λ k le. refl;
  },
)
copy_run-Copied (suc n) from j to i h l =
    let x = at from j in
    let kept = length-set to i x in
    let (b, run, c) =
      copy_run-Copied n from (suc j) (set to i x) (suc i) (omega arith) (omega (arith, kept)) in
    (
      b,
      ground
          (arith, get_elem?-eq-get_or from j 0 (omega arith), store-eq to i x (omega arith), run),
      record {
        size = c.size ∙ kept;
        inside = first b c;
        before = λ k lt. c.before k (omega arith) ∙ ground (arith, get_or-set to i k x 0);
        after = λ k le. c.after k (omega arith) ∙ ground (arith, get_or-set to i k x 0);
      },
    )
  where
    first :
        (b : List ℕ)
        → Copied from (suc j) (set to i (at from j)) (suc i) n b
        → (k : ℕ) → k < suc n
        → at b (i + k) ≡ at from (j + k)
    first b c zero lt =
        let front : at b (i + 0) ≡ at b i = ap (at b) (omega arith) in
        let back : at from j ≡ at from (j + 0) = ap (at from) (omega arith) in
        let here : at (set to i (at from j)) i ≡ at from j =
          ground (arith, get_or-set to i i (at from j) 0) in
        front ∙ c.before i (omega arith) ∙ here ∙ back
    first b c (suc k) lt =
        ap (at b) (omega arith) ∙ c.inside k (omega arith) ∙ ap (at from) (omega arith)
