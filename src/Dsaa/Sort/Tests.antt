-- ===== src/Dsaa/Sort/Tests.antt =====
-- Concrete runs of sort.c, and its theorems at concrete arrays.
use muggle_cc.Base.{
  ℕ, ◌/◌, ◌≡◌, refl, none, some, [], ◌∷◌, List, replicate, length-replicate, store, compare, arith,
  Yields,
}
use muggle_cc.Dsaa.Utils.{Ranks}
use muggle_cc.Dsaa.Heap
use muggle_cc.Dsaa.Heap.{Node, Malloc}
use muggle_cc.Dsaa.Heap.Grow.{Sized}
use muggle_cc.Dsaa.Sort.{insertion_loop, insertion_sort, shell_loop, shell_sort, heap_sort}
use muggle_cc.Dsaa.Sort.Gap.{SamePointers}
use muggle_cc.Dsaa.Sort.Insertion.{IsSorted, insertion_sort_sorts}
use muggle_cc.Dsaa.Sort.Shell.{shell_sort_sorts}
use muggle_cc.Dsaa.Sort.Heapsort.{heap_sort_sorts}
use muggle_cc.Dsaa.Sort.Merge.{merge_sort, merge_recursive, merge_loop}
use muggle_cc.Dsaa.Cells
use muggle_cc.Dsaa.Sort.Merging.{merge_sort_sorts}
use muggle_cc.Dsaa.Sort.Quick.{quick_sort, quick_recursive, partition, scan_up, scan_down}

abbrev id_rank : ℕ → ℕ
id_rank n = n

by_number : Ranks compare id_rank
by_number = record { agree = λ a b. refl }

abbrev sample : List ℕ
sample = 4 ∷ 1 ∷ 3 ∷ 1 ∷ 2 ∷ []

abbrev malloc : Malloc
malloc bytes = some (replicate (bytes / 16) (record { key = 7; value = 7 }))

malloc-Sized : Sized malloc
malloc-Sized bytes m e = grind (arith, length-replicate)

insertion_sort_runs : insertion_sort compare sample 5 ≡ some (1 ∷ 1 ∷ 2 ∷ 3 ∷ 4 ∷ [])
unfolding insertion_sort insertion_loop
insertion_sort_runs = refl

shell_sort_runs : shell_sort compare sample 5 ≡ some (1 ∷ 1 ∷ 2 ∷ 3 ∷ 4 ∷ [])
unfolding shell_sort shell_loop
shell_sort_runs = refl

heap_sort_runs : heap_sort compare malloc sample ≡ some (some (1 ∷ 1 ∷ 2 ∷ 3 ∷ 4 ∷ []))
unfolding heap_sort Heap.init Heap.insert Heap.extract Heap.sink_loop
heap_sort_runs = refl

merge_sort_runs :
    merge_sort compare (λ bytes. some (replicate (bytes / 8) 7)) sample 5
    ≡ some (some (1 ∷ 1 ∷ 2 ∷ 3 ∷ 4 ∷ []))
unfolding merge_sort merge_recursive merge_loop store
merge_sort_runs = refl

-- Twelve pointers: one round of partitioning, then insertion sort.
quick_sort_runs :
    quick_sort compare (12 ∷ 3 ∷ 7 ∷ 1 ∷ 11 ∷ 2 ∷ 9 ∷ 5 ∷ 4 ∷ 10 ∷ 8 ∷ 6 ∷ []) 12
    ≡ some (1 ∷ 2 ∷ 3 ∷ 4 ∷ 5 ∷ 6 ∷ 7 ∷ 8 ∷ 9 ∷ 10 ∷ 11 ∷ 12 ∷ [])
unfolding quick_sort quick_recursive partition scan_up scan_down insertion_sort insertion_loop
quick_sort_runs = refl

-- `count - 1` wraps around for an empty array.
quick_sort_empty_faults : quick_sort compare [] 0 ≡ none
unfolding quick_sort quick_recursive
quick_sort_empty_faults = refl

insertion_sort_sorts_example :
    Yields (insertion_sort compare sample 5) (λ b. IsSorted id_rank b 5 × SamePointers b sample)
insertion_sort_sorts_example = insertion_sort_sorts compare id_rank by_number sample

shell_sort_sorts_example :
    Yields (shell_sort compare sample 5) (λ b. IsSorted id_rank b 5 × SamePointers b sample)
shell_sort_sorts_example = shell_sort_sorts compare id_rank by_number sample

heap_sort_sorts_example : Yields (heap_sort compare malloc sample) (λ r. elim r [
  | none ↦ Heap.init malloc (some compare) 6 ≡ none
  | some b ↦ IsSorted id_rank b 5 × SamePointers b sample
])
heap_sort_sorts_example =
    heap_sort_sorts compare id_rank by_number malloc sample malloc-Sized (omega arith)

abbrev cells : Cells.Malloc
cells bytes = some (replicate (bytes / 8) 7)

cells-Sized : Cells.Sized cells
cells-Sized bytes m e = grind (arith, length-replicate)

merge_sort_sorts_example :
    Yields (merge_sort compare cells sample 5) (λ r. elim r [
      | none ↦ cells 40 ≡ none
      | some b ↦ IsSorted id_rank b 5 × SamePointers b sample
    ])
merge_sort_sorts_example =
    merge_sort_sorts compare id_rank by_number cells sample cells-Sized (omega arith) (omega arith)
