-- ===== src/Memory/MemoryPool.antt =====
-- muggle/c/memory/memory_pool.c: a pool of blocks of one size, whose pointers stand in a ring. A
-- pointer is a number. The outer option of a call is a fault, an access outside an array or a failed
-- `assert`. `peak`, which only a debug build has, is left out.
pub mod Ring
pub mod Queue
pub mod Copying
pub mod Split
pub mod Grow
pub mod Alloc
pub mod Init
pub mod Occurrences
pub mod Safety
mod Tests
use muggle_cc.Base.{
  ℕ, zero, suc, ◌+◌, ◌-◌, ◌*◌, ◌%◌, ◌^◌, Bool, true, false, not, Option, none, some, List, [], ◌∷◌,
  length, get_elem?, store, copy_in, copy_out, ltb, leb, ◌==◌, if◌then◌else◌, ◌>>=◌,
}

pub record MemoryPool : Type 0 where
  pub data_bufs : List ℕ
  pub ptr_buf : List ℕ
  pub alloc_index : ℕ
  pub free_index : ℕ
  pub capacity : ℕ
  pub used : ℕ
  pub block_size : ℕ
  pub num_buf : ℕ
  pub flag : ℕ

-- What `malloc` gives in one call for the size that it is asked for: the array of buffers and the
-- array of pointers, with any contents, and a buffer of blocks, at some address. Each call of a pool
-- has its own.
pub record Allocator : Type 0 where
  pub bufs : ℕ → Option (List ℕ)
  pub ptrs : ℕ → Option (List ℕ)
  pub block : ℕ → Option ℕ

-- `(char*)ptr_buf + i * block_size`, the product in `unsigned int`
abbrev pub block_at : ℕ → ℕ → ℕ → ℕ
block_at base block_size i = base + i * block_size % 2 ^ 32

-- The `n` rounds from `i` on that put the blocks of a new buffer into `ptr_buf` from `offset` on.
unfoldable pub fill_loop : ℕ → ℕ → ℕ → ℕ → ℕ → List ℕ → Option (List ℕ)
fill_loop zero i offset base block_size ptr_buf = some ptr_buf
fill_loop (suc n) i offset base block_size ptr_buf = do
  ptr_buf' ← store ptr_buf (offset + i) (block_at base block_size i)
  fill_loop n (suc i) offset base block_size ptr_buf'

-- A pool of zeros, as `memset` leaves it.
abbrev pub blank : MemoryPool
blank = record {
  data_bufs = [];
  ptr_buf = [];
  alloc_index = 0;
  free_index = 0;
  capacity = 0;
  used = 0;
  block_size = 0;
  num_buf = 0;
  flag = 0;
}

unfoldable pub start : ℕ → ℕ → List ℕ → ℕ → List ℕ → Option (Bool × MemoryPool)
start capacity block_size bufs base ptrs = do
  bufs' ← store bufs 0 base
  ptrs' ← fill_loop capacity 0 0 base block_size ptrs
  some (
    true,
    record blank {
      data_bufs = bufs';
      ptr_buf = ptrs';
      capacity = capacity;
      block_size = block_size;
      num_buf = 1;
    },
  )

unfoldable pub init : Allocator → ℕ → ℕ → Option (Bool × MemoryPool)
init a init_capacity block_size =
    let capacity = if init_capacity == 0 then 8 else init_capacity in
    let started : Option (Bool × MemoryPool) = elim (a.bufs 8) [
      | none ↦ some (false, blank)
      | some bufs ↦ elim (a.ptrs (8 * capacity)) [
        | none ↦ some (false, blank)
        | some ptrs ↦ elim (a.block (block_size * capacity % 2 ^ 32)) [
          | none ↦ some (false, blank)
          | some base ↦ start capacity block_size bufs base ptrs
        ]
      ]
    ] in
    if block_size == 0 then some (false, blank) else started

abbrev pub destroy : MemoryPool → MemoryPool
destroy p = blank

-- The sections of the ring, each with its start and its length: first the pointers in use, then
-- those that are not. Their indices are not past the capacity, so that no difference wraps around.
pub record Sections : Type 0 where
  pub free1 : ℕ × ℕ
  pub free2 : ℕ × ℕ
  pub alloc1 : ℕ × ℕ
  pub alloc2 : ℕ × ℕ

unfoldable pub sections : MemoryPool → Option Sections
sections p =
    let c = p.capacity in
    let f = p.free_index in
    let a = p.alloc_index in
    let full : Sections = record {
      free1 = (f, c - f);
      free2 = (0, f);
      alloc1 = (0, 0);
      alloc2 = (0, 0);
    } in
    let above : Sections = record {
      free1 = (f, a - f);
      free2 = (0, 0);
      alloc1 = (a, c - a);
      alloc2 = (0, f);
    } in
    let below : Sections = record {
      free1 = (f, c - f);
      free2 = (0, a);
      alloc1 = (a, f - a);
      alloc2 = (0, 0);
    } in
    if p.used == c
    then (if a == f then some full else none)
    else if ltb f a
    then some above
    else some below

-- `memcpy` of a section to `new` at `offset`
unfoldable pub copy_section : List ℕ → ℕ × ℕ → ℕ → List ℕ → Option (List ℕ)
copy_section old section offset new = do
  part ← copy_out section.0 section.1 old
  copy_in offset part new

-- The sections of `alloc`, which are copied where the first of `free` is not empty, and the end.
unfoldable pub copy_alloc : List ℕ → Sections → ℕ → List ℕ → Option (ℕ × List ℕ)
unfolding copy_section
copy_alloc old s offset new =
    let copied = copy_section old s.alloc1 offset new >>= λ m.
    copy_section old s.alloc2 (offset + s.alloc1.1) m >>= λ m'.
    some (offset + s.alloc1.1 + s.alloc2.1, m') in
    if s.free1.1 == 0 then some (offset, new) else copied

-- The sections of `free`.
unfoldable pub copy_free : List ℕ → Sections → List ℕ → Option (List ℕ)
unfolding copy_section
copy_free old s new = do m ← copy_section old s.free1 0 new; copy_section old s.free2 s.free1.1 m

-- The array of buffers with the new one.
unfoldable pub add_buffer : MemoryPool → List ℕ → ℕ → Option (List ℕ)
add_buffer p new_bufs base = do
  old ← copy_out 0 p.num_buf p.data_bufs
  bufs ← copy_in 0 old new_bufs
  store bufs p.num_buf base

-- `ensure_space` once all memory is there.
unfoldable pub grow : MemoryPool → ℕ → List ℕ → ℕ → List ℕ → Option MemoryPool
grow p capacity new_bufs base new_ptrs = do
  bufs ← add_buffer p new_bufs base
  s ← sections p
  let used = s.free1.1 + s.free2.1
  m ← copy_free p.ptr_buf s new_ptrs
  r ← copy_alloc p.ptr_buf s used m
  ptrs ← fill_loop (capacity - p.capacity) 0 r.0 base p.block_size r.1
  some (record p {
    data_bufs = bufs;
    ptr_buf = ptrs;
    alloc_index = used;
    free_index = 0;
    capacity = capacity;
    num_buf = p.num_buf + 1;
  })

unfoldable pub ensure_space : Allocator → MemoryPool → ℕ → Option (Bool × MemoryPool)
ensure_space a p capacity =
    let delta_size = capacity - p.capacity in
    let grown : Option (Bool × MemoryPool) = elim (a.bufs (8 * (p.num_buf + 1))) [
      | none ↦ some (false, p)
      | some new_bufs ↦ elim (a.block (p.block_size * delta_size % 2 ^ 32)) [
        | none ↦ some (false, p)
        | some base ↦ elim (a.ptrs (8 * capacity)) [
          | none ↦ some (false, p)
          | some new_ptrs ↦ grow p capacity new_bufs base new_ptrs >>= λ q. some (true, q)
        ]
      ]
    ] in
    if leb capacity p.capacity
    then some (true, p)
    else if p.flag % 2 == 1
    then some (false, p)
    else grown

-- The end of `alloc`, after the test for space.
unfoldable pub take_block : MemoryPool → Option (Option ℕ × MemoryPool)
take_block p = do
  ret ← get_elem? p.ptr_buf p.alloc_index
  let next = p.alloc_index + 1
  some (
    some ret,
    record p { used = p.used + 1; alloc_index = if next == p.capacity then 0 else next },
  )

-- What is returned, `none` for NULL, and the pool.
unfoldable pub alloc : Allocator → MemoryPool → Option (Option ℕ × MemoryPool)
alloc a p =
    let grown = ensure_space a p (p.capacity * 2 % 2 ^ 32) >>= λ r.
    if r.0 then take_block r.1 else some (none, r.1) in
    if p.used == p.capacity then grown else take_block p

-- `used` is an `unsigned int`.
unfoldable pub free : MemoryPool → ℕ → Option MemoryPool
free p data' = do
  ptrs ← store p.ptr_buf p.free_index data'
  let next = p.free_index + 1
  some (record p {
    ptr_buf = ptrs;
    free_index = if next == p.capacity then 0 else next;
    used = (p.used + 2 ^ 32 - 1) % 2 ^ 32;
  })

abbrev pub get_flag : MemoryPool → ℕ
get_flag p = p.flag

abbrev pub set_flag : MemoryPool → ℕ → MemoryPool
set_flag p flag = record p { flag = flag }
