-- ===== src/Memory/MemoryPool/Queue.antt =====
-- A pool as the queue of its blocks that are not in use, which `alloc` takes from and `free` adds to.
use muggle_cc.Base.{
  ℕ, suc, ◌+◌, ◌-◌, ◌%◌, ◌^◌, ◌≤◌, ◌<◌, ◌≡◌, refl, sym, ap, ◌∙◌, arith, Option, some, List, [], ◌∷◌,
  ◌++◌, length, length-set, get_or, set, store-eq, Yields,
}
use muggle_cc.Memory.MemoryPool.{MemoryPool, take_block, free}
use muggle_cc.Memory.MemoryPool.Ring.{ring, next, advance, advance-next, ring-set, get_elem?-get_or}

pub record IsValid (p : MemoryPool) : Type 0 where
  pub full : length p.ptr_buf ≡ p.capacity
  pub buffers : length p.data_bufs ≡ p.num_buf
  pub small : p.capacity < 2 ^ 32
  pub in_use : p.used ≤ p.capacity
  pub at_alloc : p.alloc_index < p.capacity
  pub at_free : p.free_index ≡ advance p.capacity (p.capacity - p.used) p.alloc_index

-- The blocks that are not in use, in the order in which they are handed out.
abbrev pub available : MemoryPool → List ℕ
available p = ring p.capacity (p.capacity - p.used) p.alloc_index p.ptr_buf

-- `r` is what is returned and left: the first of the blocks that were not in use, and `p` without it.
pub record Taken (p : MemoryPool) (r : Option ℕ × MemoryPool) : Type 0 where
  pub valid : IsValid r.1
  pub block : ℕ
  pub returned : r.0 ≡ some block
  pub first : available p ≡ block ∷ available r.1
  pub counted : r.1.used ≡ p.used + 1
  pub same_size : r.1.capacity ≡ p.capacity
  pub same_buffers : r.1.data_bufs ≡ p.data_bufs
  pub same_blocks : r.1.block_size ≡ p.block_size

pub take_block-Taken :
    (p : MemoryPool) → IsValid p → p.used < p.capacity → Yields (take_block p) (Taken p)
unfolding take_block ring
take_block-Taken p v h =
    let i = p.alloc_index in
    let load = get_elem?-get_or p.ptr_buf i (omega (arith, v.full, v.at_alloc)) in
    let q = record p { used = p.used + 1; alloc_index = next p.capacity i } in
    let left : p.capacity - p.used ≡ suc (p.capacity - (p.used + 1)) = omega arith in
    (
      (some (get_or p.ptr_buf i 0), q),
      simp (load),
      record {
        valid = record {
          full = v.full;
          buffers = v.buffers;
          small = v.small;
          in_use = omega arith;
          at_alloc = ground (arith, v.at_alloc);
          at_free =
              v.at_free
              ∙ ap (λ n. advance p.capacity n i) left
              ∙ sym (
                  advance-next p.capacity (p.capacity - (p.used + 1)) i v.at_alloc
                    (omega (arith, v.at_alloc)));
        };
        block = get_or p.ptr_buf i 0;
        returned = refl;
        first = ap (λ n. ring p.capacity n i p.ptr_buf) left;
        counted = refl;
        same_size = refl;
        same_buffers = refl;
        same_blocks = refl;
      },
    )

-- `q` is `p` with a block given back, the last to be handed out again.
pub record Freed (p : MemoryPool) (block : ℕ) (q : MemoryPool) : Type 0 where
  pub valid : IsValid q
  pub last : available q ≡ available p ++ (block ∷ [])
  pub counted : q.used + 1 ≡ p.used
  pub same_size : q.capacity ≡ p.capacity
  pub same_buffers : q.data_bufs ≡ p.data_bufs
  pub same_blocks : q.block_size ≡ p.block_size

-- `free` on a valid pool with a block in use stays within the ring and leaves a valid pool with one
-- block fewer in use, in which the block is the last of the queue.
pub free-Freed :
    (p : MemoryPool) (block : ℕ) → IsValid p → 0 < p.used → Yields (free p block) (Freed p block)
unfolding free
free-Freed p block v h =
    let i = p.alloc_index in
    let n = p.capacity - p.used in
    let inside : p.free_index < p.capacity = ground (arith, v.at_free, v.at_alloc, v.in_use) in
    let used' = (p.used + 2 ^ 32 - 1) % 2 ^ 32 in
    let fewer : used' + 1 ≡ p.used = omega (arith, v.in_use, v.small) in
    let more : p.capacity - used' ≡ suc n = omega (arith, v.in_use, fewer) in
    let ptrs = set p.ptr_buf p.free_index block in
    (
      record p { ptr_buf = ptrs; free_index = next p.capacity p.free_index; used = used' },
      simp (store-eq p.ptr_buf p.free_index block (omega (arith, v.full, inside))),
      record {
        valid = record {
          full = length-set p.ptr_buf p.free_index block ∙ v.full;
          buffers = v.buffers;
          small = v.small;
          in_use = omega (arith, v.in_use, fewer);
          at_alloc = v.at_alloc;
          at_free = ground (arith, more, v.at_free, v.at_alloc, v.in_use);
        };
        last =
            ap (λ k. ring p.capacity k i ptrs) more
            ∙ ap (λ f. ring p.capacity (suc n) i (set p.ptr_buf f block)) v.at_free
            ∙ ring-set p.capacity n i p.ptr_buf block (omega (arith, v.in_use)) v.at_alloc v.full;
        counted = fewer;
        same_size = refl;
        same_buffers = refl;
        same_blocks = refl;
      },
    )
