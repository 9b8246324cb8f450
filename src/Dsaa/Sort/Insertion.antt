-- ===== src/Dsaa/Sort/Insertion.antt =====
-- `muggle_insertion_sort`.
use muggle_cc.Base.{
  ℕ, zero, suc, ◌+◌, ◌-◌, ◌≤◌, ◌<◌, ◌≡◌, refl, ◌∙◌, some, List, length, set, length-set,
  get_elem?-eq-get_or, store-eq, arith, Yields, inl, inr, le-or-gt,
}
use muggle_cc.Dsaa.Utils.{Cmp, Ranks}
use muggle_cc.Dsaa.Sort.{insertion_shift, insertion_loop, insertion_sort}
use muggle_cc.Dsaa.Sort.Gap.{
  at, count-set, SamePointers, IsGapSorted, Hole, Filled, Hole-here, Hole-move, Filled-move,
}

one_pos : 1 ≤ 1
one_pos = omega arith

module _ (rank : ℕ → ℕ) where
  -- The first `n` pointers are in ascending order.
  abbrev pub IsSorted : List ℕ → ℕ → Type 0
  IsSorted a n = (c : ℕ) → 1 ≤ c → c < n → rank (at a (c - 1)) ≤ rank (at a c)

  -- The hole of a round that starts at `i` in an array that is in order at the gap below `i`.
  pub start-Hole :
      (g : ℕ) (pos : 1 ≤ g) (a : List ℕ) (i : ℕ)
      → i < length a
      → IsGapSorted rank g pos a i
      → Hole rank g pos a (suc i) i (at a i)
  start-Hole g pos a i room sorted = record {
    inside = omega arith;
    room = omega arith;
    edges = λ c h k l m. sorted c h (omega arith);
    over = λ h. absurd (omega arith);
    bridge = λ h k. absurd (omega arith);
  }

  -- A round keeps the pointers.
  pub Filled-SamePointers :
      (g : ℕ) (pos : 1 ≤ g) (a : List ℕ) (i : ℕ) (out : List ℕ × ℕ)
      → i < length a
      → Filled rank g pos a (suc i) i (at a i) out
      → SamePointers (set out.0 out.1 (at a i)) a
  Filled-SamePointers g pos a i out room s = (
    length-set out.0 out.1 (at a i) ∙ s.size,
    λ p. omega (arith, s.same p, count-set p a i (at a i) room),
  )

module _ (cmp : Cmp) (rank : ℕ → ℕ) (ranks : Ranks cmp rank) where
  insertion_shift-Filled :
      (n x j : ℕ) (a : List ℕ)
      → Hole rank 1 one_pos a n j x
      → Yields (insertion_shift cmp j a x) (Filled rank 1 one_pos a n j x)
  unfolding insertion_shift
  insertion_shift-Filled n x zero a v =
      ((a, zero), refl, Hole-here rank 1 one_pos n x v (λ h. absurd (omega arith)))
  insertion_shift-Filled n x (suc j) a v =
      let here : j < length a = omega (arith, v.inside, v.room) in
      let load = get_elem?-eq-get_or a j 0 here in
      let agree = ranks.agree (at a j) x in
      let down : suc j - 1 ≡ j = omega arith in
      elim (le-or-gt (rank (at a j)) (rank x)) [
        | inl settled ↦ (
          (a, suc j),
          ground (arith, load, agree),
          Hole-here rank 1 one_pos n x v (λ h. rw down settled),
        )
        | inr above ↦
            let b = set a (suc j) (at a j) in
            let next : Hole rank 1 one_pos b n j x =
              rw down at (Hole-move rank 1 one_pos n x v (omega arith) (rw down (omega arith))) in
            let (out, run, s) = insertion_shift-Filled n x j b next in
            (
              out,
              ground (arith, load, agree, store-eq a (suc j) (at a j), v.inside, v.room, run),
              Filled-move rank 1 one_pos n x j (omega (arith, v.inside, v.room)) here (omega arith)
                  s,
            )
      ]

  insertion_loop_sorts :
      (n i : ℕ) (a : List ℕ)
      → 1 ≤ i
      → i + n ≤ length a
      → IsSorted rank a i
      → Yields (insertion_loop cmp n i a) (λ b. IsSorted rank b (i + n) × SamePointers b a)
  unfolding insertion_loop
  insertion_loop_sorts zero i a pos h sorted =
      (a, refl, (λ c k l. sorted c k (omega arith), (refl, λ p. refl)))
  insertion_loop_sorts (suc n) i a pos h sorted =
      let room : i < length a = omega arith in
      let x = at a i in
      let (out, run, s) =
        insertion_shift-Filled (suc i) x i a (start-Hole rank 1 one_pos a i room sorted) in
      let (size, same) = Filled-SamePointers rank 1 one_pos a i out room s in
      let (b, later, (ordered, (size', same'))) =
        insertion_loop_sorts n (suc i) (set out.0 out.1 x) (omega arith) (omega (arith, size))
          s.ordered in
      (
        b,
        ground (arith, get_elem?-eq-get_or a i 0 room, run, store-eq out.0 out.1 x s.inside, later),
        (λ c k l. ordered c k (omega arith), (size' ∙ size, λ p. same' p ∙ same p)),
      )

  -- `muggle_insertion_sort` of `count` pointers stays within the array and ends, and leaves the
  -- same pointers in ascending order.
  pub insertion_sort_sorts :
      (ptr : List ℕ)
      → Yields
          (insertion_sort cmp ptr (length ptr))
          (λ b. IsSorted rank b (length ptr) × SamePointers b ptr)
  unfolding insertion_sort
  insertion_sort_sorts ptr = elim (le-or-gt 1 (length ptr)) [
    | inl some_pointers ↦
        let (b, run, (ordered, same)) =
          insertion_loop_sorts (length ptr - 1) 1 ptr (omega arith) (omega arith)
            (λ c h k. absurd (omega arith)) in
        (b, run, (λ c h k. ordered c h (omega arith), same))
    | inr empty ↦ (
      ptr,
      no_rounds (length ptr - 1) (omega arith),
      (λ c h k. absurd (omega arith), (refl, λ p. refl)),
    )
  ]
    where
      no_rounds : (n : ℕ) → n ≡ 0 → insertion_loop cmp n 1 ptr ≡ some ptr
      no_rounds zero e = unfold insertion_loop in refl
      no_rounds (suc n) e = absurd (omega arith)
