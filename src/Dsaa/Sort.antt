-- ===== src/Dsaa/Sort.antt =====
-- muggle/c/dsaa/sort.c: sorting arrays of pointers in place. `none` is a fault, an access outside
-- the array, or fuel that ran out.
pub mod Gap
pub mod Insertion
pub mod Shell
pub mod Heapsort
pub mod Merge
pub mod Segments
pub mod Runs
pub mod MergeLoop
pub mod Merging
pub mod Quick
mod Tests
use muggle_cc.Base.{
  ℕ, zero, suc, ◌+◌, ◌-◌, ◌/◌, ◌%◌, ◌^◌, Bool, true, false, Option, none, some, List, [], ◌∷◌,
  length, leb, ◌==◌, if◌then◌else◌, ◌>>=◌, get_elem?, store,
}
use muggle_cc.Dsaa.Utils.{Cmp, is_lt, is_gt}
use muggle_cc.Dsaa.Heap
use muggle_cc.Dsaa.Heap.{Heap, Malloc}

module _ (cmp : Cmp) where
  -- `for (j = i; j > 0; j--)` of `muggle_insertion_sort`: the array, and where `tmp` belongs.
  unfoldable pub insertion_shift : ℕ → List ℕ → ℕ → Option (List ℕ × ℕ)
  insertion_shift zero ptr tmp = some (ptr, 0)
  insertion_shift (suc j) ptr tmp = do
    before ← get_elem? ptr j
    let shift : Option (List ℕ × ℕ) = do ptr' ← store ptr (suc j) before; insertion_shift j ptr' tmp
    if is_gt (cmp before tmp) then shift else some (ptr, suc j)

  -- The rounds from `i` on, `n` of them.
  unfoldable pub insertion_loop : ℕ → ℕ → List ℕ → Option (List ℕ)
  unfolding insertion_shift store
  insertion_loop zero i ptr = some ptr
  insertion_loop (suc n) i ptr = do
    tmp ← get_elem? ptr i
    hole ← insertion_shift i ptr tmp
    ptr' ← store hole.0 hole.1 tmp
    insertion_loop n (suc i) ptr'

  unfoldable pub insertion_sort : List ℕ → ℕ → Option (List ℕ)
  insertion_sort ptr count = insertion_loop (count - 1) 1 ptr

  -- `for (j = i; j >= increment; j -= increment)` of `muggle_shell_sort`.
  unfoldable pub shell_shift : ℕ → ℕ → ℕ → List ℕ → ℕ → Option (List ℕ × ℕ)
  shell_shift zero increment j ptr tmp = none
  shell_shift (suc fuel) increment j ptr tmp =
      let step : Option (List ℕ × ℕ) = do
        before ← get_elem? ptr (j - increment)
        let shift : Option (List ℕ × ℕ) = do
          ptr' ← store ptr j before
          shell_shift fuel increment (j - increment) ptr' tmp
        if is_lt (cmp tmp before) then shift else some (ptr, j)
      in if leb increment j then step else some (ptr, j)

  unfoldable pub shell_pass : ℕ → ℕ → ℕ → List ℕ → Option (List ℕ)
  unfolding shell_shift store
  shell_pass zero increment i ptr = some ptr
  shell_pass (suc n) increment i ptr = do
    tmp ← get_elem? ptr i
    hole ← shell_shift (suc i) increment i ptr tmp
    ptr' ← store hole.0 hole.1 tmp
    shell_pass n increment (suc i) ptr'

  unfoldable pub shell_loop : ℕ → ℕ → List ℕ → ℕ → Option (List ℕ)
  unfolding shell_pass
  shell_loop zero increment ptr count = none
  shell_loop (suc fuel) increment ptr count =
      let round = shell_pass (count - increment) increment increment ptr >>= λ ptr'.
      shell_loop fuel (increment / 2) ptr' count in
      if increment == 0 then some ptr else round

  unfoldable pub shell_sort : List ℕ → ℕ → Option (List ℕ)
  shell_sort ptr count = shell_loop (suc (count / 2)) (count / 2) ptr count

  -- The two loops of `muggle_heap_sort`. What an insertion or extraction returns is not looked at;
  -- `node` keeps its key where an extraction fails.
  unfoldable pub insert_all : Malloc → List ℕ → Heap → Option Heap
  insert_all malloc [] h = some h
  insert_all malloc (key ∷ ptr) h = do
    (ok, h') ← Heap.insert cmp malloc h key 0
    insert_all malloc ptr h'

  unfoldable pub extract_all : ℕ → ℕ → Heap → Option (List ℕ)
  extract_all zero key h = some []
  extract_all (suc n) key h = do
    (node, h') ← Heap.extract cmp h
    let key' : ℕ = elim node [ none ↦ key | some x ↦ x.key ]
    ptr ← extract_all n key' h'
    some (key' ∷ ptr)

  -- `ptr` holds `count` pointers. `none` inside is the call that returns false.
  unfoldable pub heap_sort : Malloc → List ℕ → Option (Option (List ℕ))
  unfolding insert_all extract_all
  heap_sort malloc ptr = elim (Heap.init malloc (some cmp) ((length ptr % 2 ^ 32 + 1) % 2 ^ 32)) [
    | none ↦ some none
    | some h ↦ insert_all malloc ptr h >>= λ full.
        extract_all (length ptr) 0 full >>= λ sorted. some (some sorted)
  ]
