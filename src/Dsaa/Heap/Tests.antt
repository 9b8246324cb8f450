-- ===== src/Dsaa/Heap/Tests.antt =====
-- Concrete runs of heap.c, and its theorems at concrete heaps.
use muggle_cc.Base.{
  ℕ, zero, suc, ◌/◌, ◌≡◌, refl, true, false, compare, none, some, [], ◌∷◌, replicate,
  length-replicate, arith, Yields, inr,
}
use muggle_cc.Dsaa.Utils.{Ranks}
use muggle_cc.Dsaa.Heap.{
  Node, Heap, Malloc, init, insert, extract, find, remove, ensure_capacity, sink_loop, refill_loop,
}
use muggle_cc.Dsaa.Heap.Order.{freed, IsHeap, IsValid}
use muggle_cc.Dsaa.Heap.Grow.{Sized, Ensured, ensure_capacity_correct, init-IsValid}
use muggle_cc.Dsaa.Heap.Insert.{Inserted, insert_correct}
use muggle_cc.Dsaa.Heap.Extract.{Extracted, extract_correct, extract-empty}
use muggle_cc.Dsaa.Heap.Remove.{Removed, remove_correct, remove_outside}
use muggle_cc.Dsaa.Heap.Find.{IsFirst, find-IsFirst}

abbrev node : ℕ → ℕ → Node
node k v = record { key = k; value = v }

abbrev malloc : Malloc
malloc bytes = some (replicate (bytes / 16) (node 7 7))

abbrev id_rank : ℕ → ℕ
id_rank n = n

by_number : Ranks compare id_rank
by_number = record { agree = λ a b. refl }

malloc-Sized : Sized malloc
malloc-Sized bytes m e = grind (arith, length-replicate)

abbrev sample : Heap
sample = record {
  capacity = 3;
  size = 3;
  nodes = node 7 7 ∷ node 1 10 ∷ node 3 30 ∷ node 2 20 ∷ [];
}

sample-IsHeap : IsHeap id_rank sample.nodes 3
sample-IsHeap zero k l = absurd (omega arith)
sample-IsHeap (suc zero) k l = absurd (omega arith)
sample-IsHeap (suc (suc zero)) k l = omega arith
sample-IsHeap (suc (suc (suc zero))) k l = omega arith
sample-IsHeap (suc (suc (suc (suc c)))) k l = absurd (omega arith)

sample-IsValid : IsValid id_rank sample
sample-IsValid = record {
  some_capacity = omega arith;
  room = omega arith;
  full = omega arith;
  ordered = sample-IsHeap;
}

extract_runs :
    extract compare sample
    ≡ some (
      some (node 1 10),
      record { capacity = 3; size = 2; nodes = node 7 7 ∷ node 2 20 ∷ node 3 30 ∷ node 2 20 ∷ [] },
    )
unfolding extract sink_loop
extract_runs = refl

insert_runs :
    insert compare malloc sample 0 40
    ≡ some (
      true,
      record {
        capacity = 6;
        size = 4;
        nodes = node 7 7 ∷ node 0 40 ∷ node 1 10 ∷ node 2 20 ∷ node 3 30 ∷ node 7 7 ∷ node 7 7 ∷ [];
      },
    )
unfolding insert
insert_runs = refl

-- The last node is removed by way of a comparison with its cleared key.
remove_last_runs :
    remove compare true false sample 3
    ≡ some (
      true,
      2 ∷ [],
      record { capacity = 3; size = 2; nodes = node 7 7 ∷ node 1 10 ∷ node 3 30 ∷ node 1 10 ∷ [] },
    )
unfolding remove refill_loop
remove_last_runs = refl

init-IsValid_example :
    let h : Heap = record { capacity = 2; size = 0; nodes = replicate 3 (node 7 7) } in
    IsValid id_rank h × (h.size ≡ 0) × (h.capacity ≡ 2)
unfolding init
init-IsValid_example = init-IsValid id_rank malloc malloc-Sized compare 2 (omega arith) refl

ensure_capacity_correct_example :
    Yields (ensure_capacity malloc sample 5) (Ensured id_rank malloc sample 5)
ensure_capacity_correct_example =
    ensure_capacity_correct id_rank malloc malloc-Sized sample 5 sample-IsValid (omega arith)

insert_correct_example :
    Yields
      (insert compare malloc sample 0 40)
      (Inserted compare id_rank by_number sample (node 0 40))
insert_correct_example =
    insert_correct compare id_rank by_number malloc sample 0 40 malloc-Sized sample-IsValid
      (omega arith)

extract_correct_example :
    (x : Node) × (g : Heap) × (extract compare sample ≡ some (some x, g))
    × Extracted id_rank sample x g
extract_correct_example =
    extract_correct compare id_rank by_number sample sample-IsValid (omega arith)

abbrev empty : Heap
empty = record sample { size = 0 }

extract-empty_example : extract compare empty ≡ some (none, empty)
extract-empty_example = extract-empty compare empty refl

remove_correct_example :
    (g : Heap) × (remove compare true false sample 3 ≡ some (true, freed true false (node 2 20), g))
    × Removed compare id_rank by_number sample (node 2 20) g
remove_correct_example =
    remove_correct compare id_rank by_number true false sample 3 sample-IsValid (omega arith)
      (omega arith)

remove_outside_example : remove compare true true sample 4 ≡ some (false, [], sample)
remove_outside_example =
    remove_outside compare id_rank by_number true true sample 4 (inr (omega arith))

find-IsFirst_example : Yields (find compare sample 2) (IsFirst id_rank sample.nodes 1 4 2)
find-IsFirst_example = find-IsFirst compare id_rank by_number sample 2 sample-IsValid
