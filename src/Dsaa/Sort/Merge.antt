-- ===== src/Dsaa/Sort/Merge.antt =====
-- `muggle_merge_sort`. An unsigned `count - 1` wraps around: an array without pointers is a fault.
use muggle_cc.Base.{
  ℕ, zero, suc, ◌+◌, ◌-◌, ◌*◌, ◌/◌, ◌%◌, ◌^◌, not, Option, none, some, List, ltb, leb,
  if◌then◌else◌, ◌>>=◌, get_elem?, store,
}
use muggle_cc.Dsaa.Utils.{Cmp, is_gt}

-- `to[i++] = from[j++]`, `n` times.
unfoldable pub copy_run : ℕ → List ℕ → ℕ → List ℕ → ℕ → Option (List ℕ)
copy_run zero from j to i = some to
copy_run (suc n) from j to i = do
  x ← get_elem? from j
  to' ← store to i x
  copy_run n from (suc j) to' (suc i)

module _ (cmp : Cmp) where
  -- The loop while both halves have pointers left; then the rest of both.
  unfoldable pub merge_loop : ℕ → List ℕ → List ℕ → (center right l r idx : ℕ) → Option (List ℕ)
  unfolding copy_run
  merge_loop zero ptr arr center right l r idx = none
  merge_loop (suc fuel) ptr arr center right l r idx =
      let rest : Option (List ℕ) = do
        arr' ← copy_run (suc center - l) ptr l arr idx
        copy_run (suc right - r) ptr r arr' (idx + (suc center - l))
      in let step : Option (List ℕ) = do
        x ← get_elem? ptr l
        y ← get_elem? ptr r
        let from_left : Option (List ℕ) = do
          arr' ← store arr idx x
          merge_loop fuel ptr arr' center right (suc l) r (suc idx)
        let from_right : Option (List ℕ) = do
          arr' ← store arr idx y
          merge_loop fuel ptr arr' center right l (suc r) (suc idx)
        if not (is_gt (cmp x y)) then from_left else from_right
        in if leb l center then (if leb r right then step else rest) else rest

  unfoldable pub merge_recursive : ℕ → List ℕ → List ℕ → (left right : ℕ) → Option (List ℕ × List ℕ)
  unfolding merge_loop
  merge_recursive zero ptr arr left right = none
  merge_recursive (suc fuel) ptr arr left right =
      let center = (left + right) % 2 ^ 64 / 2 in
      let split : Option (List ℕ × List ℕ) = do
        (ptr1, arr1) ← merge_recursive fuel ptr arr left center
        (ptr2, arr2) ← merge_recursive fuel ptr1 arr1 (center + 1) right
        arr3 ← merge_loop (suc (suc right - left)) ptr2 arr2 center right left (center + 1) left
        ptr3 ← copy_run (suc right - left) arr3 left ptr2 left
        some (ptr3, arr3)
      in if ltb left right then split else some (ptr, arr)

  -- `ptr` holds `count` pointers. `none` inside is the call that returns false.
  unfoldable pub merge_sort : (ℕ → Option (List ℕ)) → List ℕ → ℕ → Option (Option (List ℕ))
  unfolding merge_recursive
  merge_sort malloc ptr count =
      let sorted = λ (arr : List ℕ).
        merge_recursive (suc count) ptr arr 0 ((count + (2 ^ 64 - 1)) % 2 ^ 64) >>= λ out.
        some (some out.0) in
      elim (malloc (8 * count % 2 ^ 64)) [ none ↦ some none | some arr ↦ sorted arr ]
