-- ===== src/Dsaa/Sort/Merging.antt =====
-- `muggle_merge_sort` leaves the same pointers in ascending order.
use muggle_cc.Base.{
  ℕ, zero, suc, ◌+◌, ◌-◌, ◌*◌, ◌/◌, ◌%◌, ◌^◌, ◌≤◌, ◌<◌, ◌≡◌, refl, sym, ap, ◌∙◌, Bool, Option, none,
  some, List, length, arith, Yields, inl, inr, le-or-gt,
}
use muggle_cc.Dsaa.Utils.{Cmp, Ranks}
use muggle_cc.Dsaa.Cells.{Malloc, Sized}
use muggle_cc.Dsaa.Sort.Gap.{at, SamePointers}
use muggle_cc.Dsaa.Sort.Insertion.{IsSorted}
use muggle_cc.Dsaa.Sort.Merge.{copy_run, merge_loop, merge_recursive, merge_sort}
use muggle_cc.Dsaa.Sort.Segments.{
  count_in, count_in_ext, count_in-add, count-eq-count_in, Copied, copy_run-Copied,
}
use muggle_cc.Dsaa.Sort.Runs.{IsRun, Merged, IsRun-ext}
use muggle_cc.Dsaa.Sort.MergeLoop.{merge_loop-Merged}

module _ (cmp : Cmp) (rank : ℕ → ℕ) (ranks : Ranks cmp rank) where
  -- The segment of `n` pointers from `left` on is sorted; the others stay.
  record Sorted (ptr arr : List ℕ) (left n : ℕ) (out : List ℕ × List ℕ) : Type 0 where
    size : length out.0 ≡ length ptr
    size_arr : length out.1 ≡ length arr
    run : IsRun rank 0 out.0 left n
    before : (k : ℕ) → k < left → at out.0 k ≡ at ptr k
    after : (k : ℕ) → left + n ≤ k → at out.0 k ≡ at ptr k
    same : (p : ℕ → Bool) → count_in p out.0 left n ≡ count_in p ptr left n

  -- Both halves sorted, merged into `b` and copied back to `d`.
  Sorted-halves :
      (ptr arr b d : List ℕ) (left m j n t : ℕ) (o1 o2 : List ℕ × List ℕ)
      → t ≡ m + n
      → j ≡ left + m
      → Sorted ptr arr left m o1
      → Sorted o1.0 o1.1 j n o2
      → Merged rank 0 o2.0 o2.1 left m j n left t b
      → Copied b left o2.0 left t d
      → Sorted ptr arr left t (d, b)
  Sorted-halves ptr arr b d left m j n t o1 o2 e f s1 s2 mg c = record {
    size = c.size ∙ s2.size ∙ s1.size;
    size_arr = mg.size ∙ s2.size_arr ∙ s1.size_arr;
    run = IsRun-ext rank c.inside mg.run;
    before = λ k h. c.before k h ∙ s2.before k (omega arith) ∙ s1.before k h;
    after = λ k h. c.after k h ∙ s2.after k (omega arith) ∙ s1.after k (omega arith);
    same = λ p. omega (
      arith,
      count_in_ext p d b left left t c.inside,
      mg.same p,
      count_in_ext p o2.0 o1.0 left left m (λ k h. s2.before (left + k) (omega arith)),
      s2.same p,
      s1.same p,
      count_in_ext p o1.0 ptr j j n (λ k h. s1.after (j + k) (omega arith)),
      count_in-add p ptr left m n,
      ap (λ k. count_in p ptr k n) f,
      ap (λ k. count_in p ptr left k) e,
    );
  }

  merge_recursive-run :
      (fuel left right center : ℕ) (ptr arr b d : List ℕ) (o1 o2 : List ℕ × List ℕ)
      → center ≡ (left + right) % 2 ^ 64 / 2
      → left < right
      → merge_recursive cmp fuel ptr arr left center ≡ some o1
      → merge_recursive cmp fuel o1.0 o1.1 (center + 1) right ≡ some o2
      → merge_loop cmp (suc (suc right - left)) o2.0 o2.1 center right left (center + 1) left
        ≡ some b
      → copy_run (suc right - left) b left o2.0 left ≡ some d
      → merge_recursive cmp (suc fuel) ptr arr left right ≡ some (d, b)
  unfolding merge_recursive
  merge_recursive-run fuel left right center ptr arr b d o1 o2 half h e1 e2 e3 e4 =
      ground (arith, half, h, e1, e2, e3, e4)

  -- The merge and the copy back, for halves that are in order.
  merge_back :
      (ptr arr : List ℕ) (left center right m j k n : ℕ)
      → n ≡ m + k
      → left + m ≡ suc center
      → j + k ≡ suc right
      → left + n ≡ suc right
      → center ≤ right
      → right < length ptr
      → right < length arr
      → IsRun rank 0 ptr left m
      → IsRun rank 0 ptr j k
      → (b d : List ℕ) × (merge_loop cmp (suc (suc right - left)) ptr arr center right left j left
          ≡ some b)
        × (copy_run (suc right - left) b left ptr left ≡ some d)
        × Merged rank 0 ptr arr left m j k left n b
        × Copied b left ptr left n d
  merge_back ptr arr left center right m j k n e f g h mid room space v w =
      let (b, run, mg) =
        merge_loop-Merged cmp rank ranks ptr center right room mid (suc (suc right - left)) 0 left m
          j k left n arr (omega arith) e f g h space v w in
      let (d, run', c) = copy_run-Copied n b left ptr left (omega (arith, mg.size)) (omega arith) in
      let length_n : suc right - left ≡ n = omega arith in
      (b, d, run, ap (λ i. copy_run i b left ptr left) length_n ∙ run', mg, c)

  -- A round with two halves that the calls within sort.
  merge_recursive-split :
      (fuel left right center m k n : ℕ) (ptr arr : List ℕ) (o1 o2 : List ℕ × List ℕ)
      → center ≡ (left + right) % 2 ^ 64 / 2
      → left < right
      → n ≡ m + k
      → left + m ≡ suc center
      → center + 1 + k ≡ suc right
      → right < length ptr
      → right < length arr
      → merge_recursive cmp fuel ptr arr left center ≡ some o1
      → Sorted ptr arr left m o1
      → merge_recursive cmp fuel o1.0 o1.1 (center + 1) right ≡ some o2
      → Sorted o1.0 o1.1 (center + 1) k o2
      → Yields (merge_recursive cmp (suc fuel) ptr arr left right) (Sorted ptr arr left n)
  merge_recursive-split fuel left right center m k n ptr arr o1 o2 half lt e f g room space run1 s1
        run2 s2 =
      let (b, d, run3, run4, mg, c) =
        merge_back o2.0 o2.1 left center right m (center + 1) k n e f g (omega arith) (omega arith)
          (omega (arith, s1.size, s2.size)) (omega (arith, s1.size_arr, s2.size_arr))
          (IsRun-ext rank (λ i h. s2.before (left + i) (omega arith)) s1.run) s2.run in
      (
        (d, b),
        merge_recursive-run fuel left right center ptr arr b d o1 o2 half lt run1 run2 run3 run4,
        Sorted-halves ptr arr b d left m (center + 1) k n o1 o2 e (omega arith) s1 s2 mg c,
      )

  midpoint :
      (left right : ℕ)
      → left < right
      → right < 2 ^ 62
      → (center : ℕ) × (center ≡ (left + right) % 2 ^ 64 / 2) × (left ≤ center) × (center < right)
  midpoint left right h small = ((left + right) % 2 ^ 64 / 2, refl, omega arith, omega arith)

  merge_recursive-Sorted :
      (fuel left n right : ℕ) (ptr arr : List ℕ)
      → n ≤ fuel
      → 1 ≤ n
      → left + n ≡ suc right
      → right < length ptr
      → right < length arr
      → right < 2 ^ 62
      → Yields (merge_recursive cmp fuel ptr arr left right) (Sorted ptr arr left n)
  merge_recursive-Sorted zero left n right ptr arr enough pos e room space small =
      absurd (omega arith)
  merge_recursive-Sorted (suc fuel) left n right ptr arr enough pos e room space small =
      elim (le-or-gt n 1) [
        | inl single ↦ (
          (ptr, arr),
          unfold merge_recursive in ground arith,
          record {
            size = refl;
            size_arr = refl;
            run = record { over = λ h. omega arith; ordered = λ k h. absurd (omega arith) };
            before = λ k h. refl;
            after = λ k h. refl;
            same = λ p. refl;
          },
        )
        | inr several ↦
            let (center, half, low, high) = midpoint left right (omega arith) small in
            let (o1, run1, s1) =
              merge_recursive-Sorted fuel left (suc center - left) center ptr arr (omega arith)
                (omega arith) (omega arith) (omega arith) (omega arith) (omega arith) in
            let (o2, run2, s2) =
              merge_recursive-Sorted fuel (center + 1) (right - center) right o1.0 o1.1
                (omega arith) (omega arith) (omega arith) (omega (arith, s1.size))
                (omega (arith, s1.size_arr)) small in
            merge_recursive-split fuel left right center (suc center - left) (right - center) n ptr
              arr o1 o2 half (omega arith) (omega arith) (omega arith) (omega arith) room space run1
              s1 run2 s2
      ]

  -- `muggle_merge_sort` of one pointer and more, fewer than 2^60, stays within the arrays and ends,
  -- and where it returns true it leaves the same pointers in ascending order. It returns false only
  -- where `malloc` fails.
  pub merge_sort_sorts :
      (malloc : Malloc) (ptr : List ℕ)
      → Sized malloc
      → 1 ≤ length ptr
      → length ptr < 2 ^ 60
      → Yields (merge_sort cmp malloc ptr (length ptr)) (λ r. elim r [
        | none ↦ malloc (8 * length ptr) ≡ none
        | some b ↦ IsSorted rank b (length ptr) × SamePointers b ptr
      ])
  unfolding merge_sort
  merge_sort_sorts malloc ptr sized pos small = go (malloc (8 * length ptr)) refl
    where
      n : ℕ
      n = length ptr

      bytes : 8 * n % 2 ^ 64 ≡ 8 * n
      bytes = omega arith

      last : (n + (2 ^ 64 - 1)) % 2 ^ 64 ≡ n - 1
      last = omega arith

      in_order : (b : List ℕ) → IsRun rank 0 b 0 n → IsSorted rank b n
      in_order b v zero h l = absurd (omega arith)
      in_order b v (suc c) h l =
          let down : suc c - 1 ≡ 0 + c = omega arith in
          let up : suc c ≡ 0 + suc c = omega arith in
          ground (arith, v.ordered c l, ap (at b) down, ap (at b) up)

      same_pointers :
          (b : List ℕ)
          → length b ≡ n
          → ((p : ℕ → Bool) → count_in p b 0 n ≡ count_in p ptr 0 n)
          → SamePointers b ptr
      same_pointers b e same = (
        e,
        λ p.
            count-eq-count_in p b
            ∙ ap (λ k. count_in p b 0 k) e
            ∙ same p
            ∙ sym (count-eq-count_in p ptr),
      )

      go :
          (o : Option (List ℕ))
          → malloc (8 * n) ≡ o
          → Yields (merge_sort cmp malloc ptr n) (λ r. elim r [
            | none ↦ malloc (8 * n) ≡ none
            | some b ↦ IsSorted rank b n × SamePointers b ptr
          ])
      go none e = (none, ground (arith, ap malloc bytes, e), e)
      go (some arr) e =
          let size : length arr ≡ n = sized (8 * n) arr e ∙ omega arith in
          let (out, run, s) =
            merge_recursive-Sorted (suc n) 0 n (n - 1) ptr arr (omega arith) pos (omega arith)
              (omega arith) (omega (arith, size)) (omega arith) in
          (
            some out.0,
            ground (
              arith,
              ap malloc bytes,
              e,
              ap (λ k. merge_recursive cmp (suc n) ptr arr 0 k) last,
              run,
            ),
            (in_order out.0 s.run, same_pointers out.0 s.size s.same),
          )
