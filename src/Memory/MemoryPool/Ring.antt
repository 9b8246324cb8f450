-- ===== src/Memory/MemoryPool/Ring.antt =====
-- A ring of `capacity` pointers, read from an index on.
use muggle_cc.Base.{
  ℕ, zero, suc, ◌+◌, ◌-◌, ◌≤◌, ◌<◌, ◌≡◌, ◌≢◌, refl, sym, ap, ◌∙◌, arith, List, [], ◌∷◌, ◌++◌,
  length, get_or, set, get_elem?, some, take, drop, ltb, ◌==◌, if◌then◌else◌, slice,
}

-- The index after `i`, and the one `n` places on.
abbrev pub next : ℕ → ℕ → ℕ
next capacity i = if i + 1 == capacity then 0 else i + 1

abbrev pub advance : ℕ → ℕ → ℕ → ℕ
advance capacity n i = if ltb (i + n) capacity then i + n else i + n - capacity

-- The `n` entries from `i` on.
unfoldable pub ring : ℕ → ℕ → ℕ → List ℕ → List ℕ
ring capacity zero i buf = []
ring capacity (suc n) i buf = get_or buf i 0 ∷ ring capacity n (next capacity i) buf

get_or-set : (xs : List ℕ) (i v : ℕ) → i < length xs → get_or (set xs i v) i 0 ≡ v
get_or-set [] i v h = absurd (omega arith)
get_or-set (x ∷ xs) zero v h = refl
get_or-set (x ∷ xs) (suc i) v h = get_or-set xs i v (omega arith)

get_or-set_other : (xs : List ℕ) (i j v : ℕ) → i ≢ j → get_or (set xs i v) j 0 ≡ get_or xs j 0
get_or-set_other [] i j v h = refl
get_or-set_other (x ∷ xs) zero zero v h = absurd (h refl)
get_or-set_other (x ∷ xs) zero (suc j) v h = refl
get_or-set_other (x ∷ xs) (suc i) zero v h = refl
get_or-set_other (x ∷ xs) (suc i) (suc j) v h =
    get_or-set_other xs i j v (λ e. h (omega (arith, e)))

pub get_elem?-get_or : (xs : List ℕ) (i : ℕ) → i < length xs → get_elem? xs i ≡ some (get_or xs i 0)
get_elem?-get_or [] i h = absurd (omega arith)
get_elem?-get_or (x ∷ xs) zero h = refl
get_elem?-get_or (x ∷ xs) (suc i) h = get_elem?-get_or xs i (omega arith)

drop_step : (i : ℕ) (xs : List ℕ) → i < length xs → drop i xs ≡ get_or xs i 0 ∷ drop (suc i) xs
drop_step i [] h = absurd (omega arith)
drop_step zero (x ∷ xs) h = refl
drop_step (suc i) (x ∷ xs) h = drop_step i xs (omega arith)

module _ (capacity : ℕ) where
  pub advance-next :
      (n i : ℕ)
      → i < capacity
      → n < capacity
      → advance capacity n (next capacity i) ≡ advance capacity (suc n) i
  advance-next n i h k = ground arith

  -- An entry written where the entries from `i` on end is one more of them.
  pub ring-set :
      (n i : ℕ) (buf : List ℕ) (x : ℕ)
      → n < capacity
      → i < capacity
      → length buf ≡ capacity
      → ring capacity (suc n) i (set buf (advance capacity n i) x)
        ≡ ring capacity n i buf ++ (x ∷ [])
  unfolding ring
  ring-set zero i buf x h k l =
      let here : advance capacity zero i ≡ i = ground arith in
      ap (λ t. get_or (set buf t x) i 0 ∷ []) here
      ∙ ap (λ t. t ∷ []) (get_or-set buf i x (omega arith))
  ring-set (suc n) i buf x h k l =
      let inside : next capacity i < capacity = ground arith in
      let apart : advance capacity (suc n) i ≢ i = λ e. ground (arith, e) in
      let rest = ring-set n (next capacity i) buf x (omega arith) inside l in
      let same = advance-next n i k (omega arith) in
      cc (
        get_or-set_other buf (advance capacity (suc n) i) i x apart,
        ap (λ t. ring capacity (suc n) (next capacity i) (set buf t x)) (sym same) ∙ rest,
      )

  pub ring-add :
      (n m i : ℕ) (buf : List ℕ)
      → n ≤ capacity
      → i < capacity
      → ring capacity (n + m) i buf
        ≡ ring capacity n i buf ++ ring capacity m (advance capacity n i) buf
  unfolding ring
  ring-add zero m i buf h k =
      let here : i ≡ advance capacity zero i = ground arith in
      let count : zero + m ≡ m = omega arith in
      ap (λ t. ring capacity t i buf) count ∙ ap (λ t. ring capacity m t buf) here
  ring-add (suc n) m i buf h k =
      let inside : next capacity i < capacity = ground arith in
      let same = advance-next n i k (omega arith) in
      let count : suc n + m ≡ suc (n + m) = omega arith in
      ap (λ t. ring capacity t i buf) count
      ∙ cc (
        ring-add n m (next capacity i) buf (omega arith) inside,
        ap (λ t. ring capacity m t buf) same,
      )

  -- Entries that do not go round.
  pub ring-slice :
      (n i : ℕ) (buf : List ℕ)
      → i + n ≤ capacity
      → length buf ≡ capacity
      → ring capacity n i buf ≡ slice i n buf
  unfolding ring slice
  ring-slice zero i buf h l = refl
  ring-slice (suc zero) i buf h l = sym (ap (take 1) (drop_step i buf (omega arith)))
  ring-slice (suc (suc n)) i buf h l =
      let after : next capacity i ≡ suc i = ground arith in
      ap (◌∷◌ (get_or buf i 0)) (
        ap (λ t. ring capacity (suc n) t buf) after
        ∙ ring-slice (suc n) (suc i) buf (omega arith) l)
      ∙ sym (ap (take (suc (suc n))) (drop_step i buf (omega arith)))
