-- ===== src/Dsaa/Sort/Shell.antt =====
-- `muggle_shell_sort`.
use muggle_cc.Base.{
  ℕ, zero, suc, ◌+◌, ◌-◌, ◌/◌, ◌≤◌, ◌<◌, ◌≡◌, refl, ◌∙◌, some, List, length, ap, set,
  get_elem?-eq-get_or, store-eq, arith, Yields, inl, inr, le-or-gt,
}
use muggle_cc.Dsaa.Utils.{Cmp, Ranks}
use muggle_cc.Dsaa.Sort.{shell_shift, shell_pass, shell_loop, shell_sort}
use muggle_cc.Dsaa.Sort.Gap.{
  at, SamePointers, IsGapSorted, Hole, Filled, Hole-here, Hole-move, Filled-move,
}
use muggle_cc.Dsaa.Sort.Insertion.{IsSorted, start-Hole, Filled-SamePointers}

module _ (cmp : Cmp) (rank : ℕ → ℕ) (ranks : Ranks cmp rank) where
  module _ (g : ℕ) (pos : 1 ≤ g) where
    shell_shift-Filled :
        (fuel n x j : ℕ) (a : List ℕ)
        → j < fuel
        → Hole rank g pos a n j x
        → Yields (shell_shift cmp fuel g j a x) (Filled rank g pos a n j x)
    unfolding shell_shift
    shell_shift-Filled zero n x j a enough v = absurd (omega arith)
    shell_shift-Filled (suc fuel) n x j a enough v = elim (le-or-gt g j) [
      | inr low ↦
          ((a, j), ground (arith, low), Hole-here rank g pos n x v (λ h. absurd (omega arith)))
      | inl room ↦
          let here : j - g < length a = omega (arith, v.inside, v.room) in
          let load = get_elem?-eq-get_or a (j - g) 0 here in
          let agree = ranks.agree x (at a (j - g)) in
          elim (le-or-gt (rank (at a (j - g))) (rank x)) [
            | inl settled ↦
                ((a, j), ground (arith, load, agree), Hole-here rank g pos n x v (λ h. settled))
            | inr above ↦
                let (out, run, s) =
                  shell_shift-Filled fuel n x (j - g) (set a j (at a (j - g))) (omega arith)
                    (Hole-move rank g pos n x v room (omega arith)) in
                (
                  out,
                  ground (arith, load, agree, store-eq a j (at a (j - g)), v.inside, v.room, run),
                  Filled-move rank g pos n x (j - g) (omega (arith, v.inside, v.room)) here
                      (omega arith) s,
                )
          ]
    ]

    shell_pass_sorts :
        (n i : ℕ) (a : List ℕ)
        → i + n ≤ length a
        → IsGapSorted rank g pos a i
        → Yields (shell_pass cmp n g i a) (λ b. IsGapSorted rank g pos b (i + n) × SamePointers b a)
    unfolding shell_pass
    shell_pass_sorts zero i a h sorted =
        (a, refl, (λ c k l. sorted c k (omega arith), (refl, λ p. refl)))
    shell_pass_sorts (suc n) i a h sorted =
        let room : i < length a = omega arith in
        let x = at a i in
        let (out, run, s) =
          shell_shift-Filled (suc i) (suc i) x i a (omega arith)
            (start-Hole rank g pos a i room sorted) in
        let (size, same) = Filled-SamePointers rank g pos a i out room s in
        let (b, later, (ordered, (size', same'))) =
          shell_pass_sorts n (suc i) (set out.0 out.1 x) (omega (arith, size)) s.ordered in
        (
          b,
          ground
              (arith, get_elem?-eq-get_or a i 0 room, run, store-eq out.0 out.1 x s.inside, later),
          (λ c k l. ordered c k (omega arith), (size' ∙ size, λ p. same' p ∙ same p)),
        )

  -- The passes at `g`, `g / 2` and so on to 1.
  shell_loop_sorts :
      (fuel g : ℕ) (a : List ℕ)
      → g < fuel
      → 1 ≤ g
      → g ≤ length a
      → Yields
          (shell_loop cmp fuel g a (length a))
          (λ b. IsSorted rank b (length a) × SamePointers b a)
  unfolding shell_loop
  shell_loop_sorts zero g a enough pos room = absurd (omega arith)
  shell_loop_sorts (suc fuel) g a enough pos room =
      let (b, run, (ordered, (size, same))) =
        shell_pass_sorts g pos (length a - g) g a (omega arith) (λ c h k. absurd (omega arith)) in
      elim (le-or-gt 2 g) [
        | inl more ↦
            let (d, later, (ordered', (size', same'))) =
              shell_loop_sorts fuel (g / 2) b (omega arith) (omega arith) (omega (arith, size)) in
            (
              d,
              ground (arith, run, ap (λ k. shell_loop cmp fuel (g / 2) b k) size, later),
              (λ c h k. ordered' c h (omega (arith, size)), (size' ∙ size, λ p. same' p ∙ same p)),
            )
        | inr last ↦
            let one : g ≡ 1 = omega arith in
            (
              b,
              ground (arith, run, stop fuel (g / 2) b (omega arith) (omega arith)),
              (
                λ c h k. ground (
                  arith,
                  ordered c (omega arith) (omega arith),
                  ap (λ d. rank (at b (c - d))) one,
                ),
                (size, same),
              ),
            )
      ]
    where
      stop :
          (fuel g : ℕ) (b : List ℕ) → 1 ≤ fuel → g ≡ 0 → shell_loop cmp fuel g b (length a) ≡ some b
      stop zero g b h e = absurd (omega arith)
      stop (suc fuel) g b h e = unfold shell_loop in ground arith

  -- `muggle_shell_sort` of `count` pointers stays within the array and ends, and leaves the same
  -- pointers in ascending order.
  pub shell_sort_sorts :
      (ptr : List ℕ)
      → Yields
          (shell_sort cmp ptr (length ptr))
          (λ b. IsSorted rank b (length ptr) × SamePointers b ptr)
  unfolding shell_sort
  shell_sort_sorts ptr = elim (le-or-gt 2 (length ptr)) [
    | inl several ↦
        shell_loop_sorts (suc (length ptr / 2)) (length ptr / 2) ptr (omega arith) (omega arith)
          (omega arith)
    | inr few ↦ (
      ptr,
      no_passes (length ptr / 2) (omega arith),
      (λ c h k. absurd (omega arith), (refl, λ p. refl)),
    )
  ]
    where
      no_passes : (g : ℕ) → g ≡ 0 → shell_loop cmp (suc g) g ptr (length ptr) ≡ some ptr
      no_passes g e = unfold shell_loop in ground arith
