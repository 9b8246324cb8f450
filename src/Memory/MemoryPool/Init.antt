-- ===== src/Memory/MemoryPool/Init.antt =====
-- A pool begins with all its blocks in the queue.
use muggle_cc.Base.{
  ℕ, ◌-◌, ◌*◌, ◌%◌, ◌^◌, ◌<◌, ◌≡◌, ◌⊎◌, inl, inr, refl, ap, ◌∙◌, arith, true, false, none, some,
  List, [], ◌∷◌, length, length-set, set, store-eq, ◌==◌, if◌then◌else◌, Yields, le-or-gt, take_all,
  slice,
}
use muggle_cc.Memory.MemoryPool.{MemoryPool, Allocator, blank, init, start}
use muggle_cc.Memory.MemoryPool.Ring.{ring, ring-slice}
use muggle_cc.Memory.MemoryPool.Queue.{IsValid, available}
use muggle_cc.Memory.MemoryPool.Copying.{
  Written, Written-all, fill_loop-Written, blocks, length-blocks,
}
use muggle_cc.Memory.MemoryPool.Alloc.{Sized, option-cases}

-- A pool of one buffer, the one that `malloc` gave, with all of its blocks in the queue.
pub record Initialised (a : Allocator) (capacity block_size : ℕ) (q : MemoryPool) : Type 0 where
  pub valid : IsValid q
  pub sized : q.capacity ≡ capacity
  pub unused : q.used ≡ 0
  pub sized_blocks : q.block_size ≡ block_size
  pub base : ℕ
  pub given : a.block (block_size * capacity % 2 ^ 32) ≡ some base
  pub buffer : q.data_bufs ≡ base ∷ []
  pub all : available q ≡ blocks capacity 0 base block_size

-- Why there is no pool: a size of 0, or `malloc` fails.
abbrev pub Failed : Allocator → ℕ → ℕ → Type 0
Failed a capacity block_size =
    (block_size ≡ 0)
    ⊎ ((a.bufs 8 ≡ none)
        ⊎ ((a.ptrs (8 * capacity) ≡ none) ⊎ (a.block (block_size * capacity % 2 ^ 32) ≡ none)))

set-only : (xs : List ℕ) (x : ℕ) → length xs ≡ 1 → set xs 0 x ≡ x ∷ []
set-only [] x h = absurd (omega arith)
set-only (y ∷ []) x h = refl
set-only (y ∷ z ∷ xs) x h = absurd (omega arith)

start-Initialised :
    (a : Allocator) (capacity block_size base : ℕ) (bufs ptrs : List ℕ)
    → a.block (block_size * capacity % 2 ^ 32) ≡ some base
    → 0 < capacity
    → capacity < 2 ^ 32
    → length bufs ≡ 1
    → length ptrs ≡ capacity
    → Yields
        (start capacity block_size bufs base ptrs)
        (λ r. (r.0 ≡ true) × Initialised a capacity block_size r.1)
unfolding start slice
start-Initialised a capacity block_size base bufs ptrs e positive small one room =
    let nothing : Written capacity [] ptrs = record {
      whole = room;
      fits = omega arith;
      starts = refl;
    } in
    let (m, run, w) =
      fill_loop-Written capacity capacity 0 0 base block_size [] ptrs nothing refl (omega arith) in
    let every : capacity - 0 ≡ capacity = omega arith in
    let long = length-blocks capacity 0 base block_size in
    let filled : m ≡ blocks capacity 0 base block_size =
      Written-all capacity (blocks capacity 0 base block_size) m w long in
    (
      (
        true,
        record blank {
          data_bufs = set bufs 0 base;
          ptr_buf = m;
          capacity = capacity;
          block_size = block_size;
          num_buf = 1;
        },
      ),
      simp (store-eq bufs 0 base (omega (arith, one)), run),
      (
        refl,
        record {
          valid = record {
            full = w.whole;
            buffers = length-set bufs 0 base ∙ one;
            small = small;
            in_use = omega arith;
            at_alloc = positive;
            at_free = ground arith;
          };
          sized = refl;
          unused = refl;
          sized_blocks = refl;
          base = base;
          given = e;
          buffer = set-only bufs base one;
          all =
              ap (λ n. ring capacity n 0 m) every
              ∙ ring-slice capacity capacity 0 m (omega arith) w.whole
              ∙ take_all capacity m (omega (arith, w.whole))
              ∙ filled;
        },
      ),
    )

-- `init` of fewer than 2^32 blocks of some size returns true, with a valid pool of them, 8 where none
-- were asked for, none in use, and in its queue all blocks of the buffer that `malloc` gave, which is
-- its only one; or it returns false with a pool of zeros, the blocks having no size or `malloc` having
-- failed.
pub init-Initialised :
    (a : Allocator) (init_capacity block_size : ℕ)
    → Sized a
    → init_capacity < 2 ^ 32
    → let capacity = if init_capacity == 0 then 8 else init_capacity in
      Yields (init a init_capacity block_size) (λ r.
        ((r.0 ≡ true) × ((0 < block_size) × Initialised a capacity block_size r.1))
        ⊎ ((r.0 ≡ false) × ((r.1 ≡ blank) × Failed a capacity block_size)))
unfolding init
init-Initialised a init_capacity block_size sized small = elim (le-or-gt block_size 0) [
  | inl h ↦ ((false, blank), ground (arith, h), inr (refl, (refl, inl (omega (arith, h)))))
  | inr h ↦
      let capacity = if init_capacity == 0 then 8 else init_capacity in
      let positive : 0 < capacity = ground arith in
      let bounded : capacity < 2 ^ 32 = ground (arith, small) in
      elim (option-cases (a.bufs 8)) [
        | inl e1 ↦ ((false, blank), ground (arith, h, e1), inr (refl, (refl, inr (inl e1))))
        | inr (bufs, e1) ↦ elim (option-cases (a.ptrs (8 * capacity))) [
          | inl e2 ↦
              ((false, blank), ground (arith, h, e1, e2), inr (refl, (refl, inr (inr (inl e2)))))
          | inr (ptrs, e2) ↦ elim (option-cases (a.block (block_size * capacity % 2 ^ 32))) [
            | inl e3 ↦ (
              (false, blank),
              ground (arith, h, e1, e2, e3),
              inr (refl, (refl, inr (inr (inr e3)))),
            )
            | inr (base, e3) ↦
                let (r, run, (done, i)) =
                  start-Initialised a capacity block_size base bufs ptrs e3 positive bounded
                    (sized.bufs 8 bufs e1) (sized.ptrs (8 * capacity) ptrs e2 ∙ omega arith) in
                (r, ground (arith, h, e1, e2, e3, run), inl (done, (h, i)))
          ]
        ]
      ]
]
