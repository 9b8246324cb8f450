-- ===== src/Dsaa/Sort/Quick.antt =====
-- `muggle_quick_sort`. An unsigned `count - 1` wraps around: an array without pointers is a fault.
use muggle_cc.Base.{
  ℕ, zero, suc, ◌+◌, ◌-◌, ◌/◌, ◌%◌, ◌^◌, Option, none, some, List, ◌++◌, length, take, drop, ltb,
  leb, if◌then◌else◌, ◌>>=◌, get_elem?, store,
}
use muggle_cc.Dsaa.Utils.{Cmp, is_lt, is_gt}
use muggle_cc.Dsaa.Sort.{insertion_sort}

unfoldable pub swap : List ℕ → ℕ → ℕ → Option (List ℕ)
unfolding store
swap ptr i j = do
  tmp ← get_elem? ptr i
  other ← get_elem? ptr j
  ptr' ← store ptr i other
  store ptr' j tmp

module _ (cmp : Cmp) where
  unfoldable pub swap_if_gt : List ℕ → ℕ → ℕ → Option (List ℕ)
  unfolding swap
  swap_if_gt ptr i j = do
    x ← get_elem? ptr i
    y ← get_elem? ptr j
    if is_gt (cmp x y) then swap ptr i j else some ptr

  -- The array and the pivot.
  unfoldable pub median3 : List ℕ → (left right : ℕ) → Option (List ℕ × ℕ)
  unfolding swap_if_gt
  median3 ptr left right = do
    let center = (left + right) % 2 ^ 64 / 2
    ptr1 ← swap_if_gt ptr left center
    ptr2 ← swap_if_gt ptr1 left right
    ptr3 ← swap_if_gt ptr2 center right
    ptr4 ← swap ptr3 center (right - 1)
    pivot ← get_elem? ptr4 (right - 1)
    some (ptr4, pivot)

  -- `while (cmp(ptr[++i], pivot) < 0)`
  unfoldable pub scan_up : ℕ → List ℕ → ℕ → ℕ → Option ℕ
  scan_up zero ptr i pivot = none
  scan_up (suc fuel) ptr i pivot =
      let later = scan_up fuel ptr (suc i) pivot in
      get_elem? ptr (suc i) >>= (λ x. if is_lt (cmp x pivot) then later else some (suc i))

  -- `while (cmp(ptr[--j], pivot) > 0)`
  unfoldable pub scan_down : List ℕ → ℕ → ℕ → Option ℕ
  scan_down ptr zero pivot = none
  scan_down ptr (suc j) pivot =
      let later = scan_down ptr j pivot in
      get_elem? ptr j >>= (λ x. if is_gt (cmp x pivot) then later else some j)

  -- The array and where the pivot belongs.
  unfoldable pub partition : ℕ → List ℕ → (i j pivot : ℕ) → Option (List ℕ × ℕ)
  unfolding scan_up scan_down swap
  partition zero ptr i j pivot = none
  partition (suc fuel) ptr i j pivot = do
    i' ← scan_up (length ptr) ptr i pivot
    j' ← scan_down ptr j pivot
    let again : Option (List ℕ × ℕ) = do ptr' ← swap ptr i' j'; partition fuel ptr' i' j' pivot
    if ltb i' j' then again else some (ptr, i')

  unfoldable pub quick_recursive : ℕ → List ℕ → (left right : ℕ) → Option (List ℕ)
  unfolding median3 partition swap insertion_sort
  quick_recursive zero ptr left right = none
  quick_recursive (suc fuel) ptr left right =
      let split : Option (List ℕ) = do
        (ptr1, pivot) ← median3 ptr left right
        (ptr2, i) ← partition (length ptr) ptr1 left (right - 1) pivot
        ptr3 ← swap ptr2 i (right - 1)
        ptr4 ← quick_recursive fuel ptr3 left (i - 1)
        quick_recursive fuel ptr4 (i + 1) right
      in let small : Option (List ℕ) = do
        sub ← insertion_sort cmp (drop left ptr) (right + 1 - left)
        some (take left ptr ++ sub)
        in if leb ((left + 10) % 2 ^ 64) right then split else small

  unfoldable pub quick_sort : List ℕ → ℕ → Option (List ℕ)
  unfolding quick_recursive
  quick_sort ptr count = quick_recursive (suc count) ptr 0 ((count + (2 ^ 64 - 1)) % 2 ^ 64)
