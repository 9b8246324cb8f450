-- ===== src/Memory/MemoryPool/Tests.antt =====
-- Runs of memory_pool.c, and its theorems at concrete inputs.
use muggle_cc.Base.{
  ℕ, ◌*◌, ◌/◌, ◌≡◌, refl, Option, some, true, false, List, [], ◌∷◌, replicate, length-replicate,
  Yields, ◌<◌, ◌≤◌, ◌⊎◌, inl, ◌>>=◌, store, copy_out, copy_in, arith,
}
use muggle_cc.Memory.MemoryPool.Queue.{IsValid}
use muggle_cc.Memory.MemoryPool.Safety.{Run, done, allocated, freed, Fresh, present, Kept, Run-Kept}
use muggle_cc.Memory.MemoryPool.Occurrences.{occurrences}
use muggle_cc.Memory.MemoryPool.Ring.{ring}
use muggle_cc.Memory.MemoryPool.Alloc.{
  Sized, Ensured, ensure_space-Ensured, Allocated, alloc-Allocated,
}
use muggle_cc.Memory.MemoryPool.Init.{Initialised, Failed, init-Initialised}
use muggle_cc.Memory.MemoryPool.{
  MemoryPool, Allocator, blank, init, ensure_space, alloc, free, grow, fill_loop, start, take_block,
  sections, copy_alloc, copy_free, add_buffer,
}

abbrev sample : Allocator
sample = record {
  bufs = λ bytes. some (replicate (bytes / 8) 7);
  ptrs = λ bytes. some (replicate (bytes / 8) 7);
  block = λ bytes. some (1000 * bytes);
}

-- Two blocks; room for two more is made while none is in use; one is allocated and freed; then
-- four are allocated.
abbrev grown_empty : Option (List ℕ)
grown_empty = do
  p0 ← init sample 2 10
  p1 ← ensure_space sample p0.1 4
  p2 ← alloc sample p1.1
  b ← p2.0
  p3 ← free p2.1 b
  p4 ← alloc sample p3
  p5 ← alloc sample p4.1
  p6 ← alloc sample p5.1
  p7 ← alloc sample p6.1
  b4 ← p4.0
  b5 ← p5.0
  b6 ← p6.0
  b7 ← p7.0
  some (b4 ∷ b5 ∷ b6 ∷ b7 ∷ [])

-- One block is handed out twice.
grown_empty_run : grown_empty ≡ some (20010 ∷ 20000 ∷ 20010 ∷ 20000 ∷ [])
unfolding init start take_block ensure_space alloc free grow add_buffer sections copy_free
    copy_alloc fill_loop store copy_out copy_in
grown_empty_run = refl

sample-Sized : Sized sample
sample-Sized = record {
  bufs = λ bytes m e. grind (arith, length-replicate);
  ptrs = λ bytes m e. grind (arith, length-replicate);
}

-- A ring of three, whose last two entries are in use.
abbrev some_pool : MemoryPool
some_pool = record {
  data_bufs = 500 ∷ [];
  ptr_buf = 500 ∷ 510 ∷ 520 ∷ [];
  alloc_index = 0;
  free_index = 1;
  capacity = 3;
  used = 2;
  block_size = 10;
  num_buf = 1;
  flag = 0;
}

some_pool-IsValid : IsValid some_pool
some_pool-IsValid = record {
  full = refl;
  buffers = refl;
  small = omega arith;
  in_use = omega arith;
  at_alloc = omega arith;
  at_free = refl;
}

init-Initialised_example : Yields (init sample 3 10) (λ r.
    ((r.0 ≡ true) × ((0 < 10) × Initialised sample 3 10 r.1))
    ⊎ ((r.0 ≡ false) × ((r.1 ≡ blank) × Failed sample 3 10)))
init-Initialised_example = init-Initialised sample 3 10 sample-Sized (omega arith)

alloc-Allocated_example : Yields (alloc sample some_pool) (Allocated sample some_pool)
alloc-Allocated_example =
    alloc-Allocated sample some_pool sample-Sized some_pool-IsValid (omega arith)

ensure_space-Ensured_example : Yields (ensure_space sample some_pool 5) (Ensured sample some_pool 5)
ensure_space-Ensured_example =
    ensure_space-Ensured sample some_pool 5 sample-Sized some_pool-IsValid (omega arith)
      (inl (omega arith))

abbrev all_used : MemoryPool
all_used = record some_pool { alloc_index = 1; used = 3 }

-- The pool that the next call of `alloc` makes room in.
abbrev enlarged_pool : MemoryPool
enlarged_pool = record {
  data_bufs = 500 ∷ 30000 ∷ [];
  ptr_buf = 510 ∷ 520 ∷ 500 ∷ 30000 ∷ 30010 ∷ 30020 ∷ [];
  alloc_index = 4;
  free_index = 0;
  capacity = 6;
  used = 4;
  block_size = 10;
  num_buf = 2;
  flag = 0;
}

some_pool-Fresh : Fresh sample some_pool (510 ∷ 520 ∷ []) 6
unfolding occurrences ring
some_pool-Fresh = record {
  arrays = sample-Sized;
  some_bytes = omega arith;
  no_wrap = omega arith;
  apart = λ base i e l. ground (arith, e, l);
}

all_used-Fresh : Fresh sample all_used (500 ∷ 510 ∷ 520 ∷ []) 6
unfolding occurrences ring
all_used-Fresh = record {
  arrays = sample-Sized;
  some_bytes = omega arith;
  no_wrap = omega arith;
  apart = λ base i e l. ground (arith, e, l);
}

some_run :
    Run some_pool
      (510 ∷ 520 ∷ [])
      (record enlarged_pool { free_index = 1; used = 3 })
      (30000 ∷ 500 ∷ 520 ∷ [])
unfolding free alloc take_block store ensure_space grow add_buffer sections copy_free copy_alloc
    fill_loop copy_out copy_in
some_run =
    freed enlarged_pool (30000 ∷ 500 ∷ []) (520 ∷ []) 510
      (record enlarged_pool { free_index = 1; used = 3 })
      (allocated sample all_used (500 ∷ 510 ∷ 520 ∷ []) (some 30000, enlarged_pool)
        (allocated sample some_pool (510 ∷ 520 ∷ []) (some 500, all_used) done some_pool-Fresh
          (omega arith) refl)
        all_used-Fresh (omega arith) refl)
      refl

some_pool-once : (b : ℕ) → present b some_pool (510 ∷ 520 ∷ []) ≤ 1
unfolding occurrences ring
some_pool-once b = ground arith

Run-Kept_example :
    Kept some_pool
      (510 ∷ 520 ∷ [])
      (record enlarged_pool { free_index = 1; used = 3 })
      (30000 ∷ 500 ∷ 520 ∷ [])
Run-Kept_example =
    Run-Kept some_pool (510 ∷ 520 ∷ []) (record enlarged_pool { free_index = 1; used = 3 })
      (30000 ∷ 500 ∷ 520 ∷ []) some_pool-IsValid refl some_pool-once some_run
