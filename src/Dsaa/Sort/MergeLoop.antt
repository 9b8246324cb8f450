-- ===== src/Dsaa/Sort/MergeLoop.antt =====
-- The loop of `muggle_merge_sort_recursive` merges two runs.
use muggle_cc.Base.{
  ℕ, zero, suc, ◌+◌, ◌-◌, ◌≤◌, ◌<◌, ◌≡◌, refl, ap, some, List, length, set, length-set,
  get_elem?-eq-get_or, store-eq, arith, Yields, inl, inr, le-or-gt,
}
use muggle_cc.Dsaa.Utils.{Cmp, Ranks}
use muggle_cc.Dsaa.Sort.Gap.{at}
use muggle_cc.Dsaa.Sort.Merge.{copy_run, merge_loop}
use muggle_cc.Dsaa.Sort.Segments.{count_in, copy_run-Copied}
use muggle_cc.Dsaa.Sort.Runs.{
  IsRun, Merged, IsRun-tail, Merged-put, Copied-Merged-right, Copied-Merged-left,
}

module _ (cmp : Cmp) (rank : ℕ → ℕ) (ranks : Ranks cmp rank) where
  module _ (ptr : List ℕ) (center right : ℕ) (room : right < length ptr)
      (mid : center ≤ right) where
    -- A half that is used up is not copied.
    no_copy :
        (n : ℕ) (from : List ℕ) (j : ℕ) (to : List ℕ) (i : ℕ)
        → n ≡ 0
        → copy_run n from j to i ≡ some to
    unfolding copy_run
    no_copy zero from j to i e = refl
    no_copy (suc n) from j to i e = absurd (omega arith)

    pub merge_loop-Merged :
        (fuel bound l m r n idx t : ℕ) (arr : List ℕ)
        → t < fuel
        → t ≡ m + n
        → l + m ≡ suc center
        → r + n ≡ suc right
        → idx + t ≡ suc right
        → right < length arr
        → IsRun rank bound ptr l m
        → IsRun rank bound ptr r n
        → Yields
            (merge_loop cmp fuel ptr arr center right l r idx)
            (Merged rank bound ptr arr l m r n idx t)
    unfolding merge_loop
    merge_loop-Merged zero bound l m r n idx t arr enough e f g h space v w = absurd (omega arith)
    merge_loop-Merged (suc fuel) bound l zero r n idx t arr enough e f g h space v w =
        let (b, run, c) = copy_run-Copied t ptr r arr idx (omega arith) (omega arith) in
        let rest : suc right - r ≡ t = omega arith in
        let start : idx + (suc center - l) ≡ idx = omega arith in
        (
          b,
          ground (
            arith,
            no_copy (suc center - l) ptr l arr idx (omega arith),
            ap (λ k. copy_run k ptr r arr (idx + (suc center - l))) rest,
            ap (λ k. copy_run t ptr r arr k) start,
            run,
          ),
          Copied-Merged-right rank (omega arith) w c,
        )
    merge_loop-Merged (suc fuel) bound l (suc m) r zero idx t arr enough e f g h space v w =
        let (b, run, c) = copy_run-Copied t ptr l arr idx (omega arith) (omega arith) in
        let rest : suc center - l ≡ t = omega arith in
        (
          b,
          ground (
            arith,
            no_copy (suc right - r) ptr r b (idx + (suc center - l)) (omega arith),
            ap (λ k. copy_run k ptr l arr idx) rest,
            run,
          ),
          Copied-Merged-left rank (omega arith) v c,
        )
    merge_loop-Merged (suc fuel) bound l (suc m) r (suc n) idx zero arr enough e f g h space v w =
        absurd (omega arith)
    merge_loop-Merged (suc fuel) bound l (suc m) r (suc n) idx (suc t) arr enough e f g h space v
          w =
        let x = at ptr l in
        let y = at ptr r in
        let load_x = get_elem?-eq-get_or ptr l 0 (omega arith) in
        let load_y = get_elem?-eq-get_or ptr r 0 (omega arith) in
        let agree = ranks.agree x y in
        elim (le-or-gt (rank x) (rank y)) [
          | inl le ↦
              let (b, run, c) =
                merge_loop-Merged fuel (rank x) (suc l) m r (suc n) (suc idx) t (set arr idx x)
                  (omega arith) (omega arith) (omega arith) g (omega arith)
                  (omega (arith, length-set arr idx x)) (IsRun-tail rank v)
                  (record { over = λ k. le; ordered = w.ordered }) in
              (
                b,
                ground (arith, load_x, load_y, agree, store-eq arr idx x (omega arith), run),
                Merged-put rank {l = suc l} {m = m} {r = r} {n = suc n} (omega arith)
                    (v.over (omega arith)) (λ p. unfold count_in in omega arith) c,
              )
          | inr gt ↦
              let (b, run, c) =
                merge_loop-Merged fuel (rank y) l (suc m) (suc r) n (suc idx) t (set arr idx y)
                  (omega arith) (omega arith) f (omega arith) (omega arith)
                  (omega (arith, length-set arr idx y))
                  (record { over = λ k. omega arith; ordered = v.ordered }) (IsRun-tail rank w) in
              (
                b,
                ground (arith, load_x, load_y, agree, store-eq arr idx y (omega arith), run),
                Merged-put rank {l = l} {m = suc m} {r = suc r} {n = n} (omega arith)
                    (w.over (omega arith)) (λ p. unfold count_in in omega arith) c,
              )
        ]
