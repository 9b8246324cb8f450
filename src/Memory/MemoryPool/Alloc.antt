-- ===== src/Memory/MemoryPool/Alloc.antt =====
-- `alloc` takes the first block that is not in use, from a grown pool where there is none.
use muggle_cc.Base.{
  ℕ, ◌+◌, ◌-◌, ◌*◌, ◌/◌, ◌%◌, ◌^◌, ◌≤◌, ◌<◌, ◌≡◌, ◌⊎◌, inl, inr, refl, ap, ◌∙◌, arith, Bool, true,
  false, Option, none, some, List, [], ◌∷◌, ◌++◌, length, Yields, le-or-gt,
}
use muggle_cc.Memory.MemoryPool.{MemoryPool, Allocator, ensure_space, alloc}
use muggle_cc.Memory.MemoryPool.Queue.{IsValid, available, Taken, take_block-Taken}
use muggle_cc.Memory.MemoryPool.Copying.{blocks}
use muggle_cc.Memory.MemoryPool.Grow.{grow-Grown}

-- What is relied on of `malloc`: an array that it gives is as large as asked for.
pub record Sized (a : Allocator) : Type 0 where
  pub bufs : (bytes : ℕ) (m : List ℕ) → a.bufs bytes ≡ some m → length m ≡ bytes / 8
  pub ptrs : (bytes : ℕ) (m : List ℕ) → a.ptrs bytes ≡ some m → length m ≡ bytes / 8

-- `q` is `p` with room for `capacity` blocks. The new ones, last in the queue, fill the buffer that
-- `malloc` gave for them, which is last of the buffers.
pub record Enlarged (a : Allocator) (p : MemoryPool) (capacity : ℕ) (q : MemoryPool) : Type 0 where
  pub valid : IsValid q
  pub large : q.capacity ≡ capacity
  pub base : ℕ
  pub given : a.block (p.block_size * (capacity - p.capacity) % 2 ^ 32) ≡ some base
  pub buffer : q.data_bufs ≡ p.data_bufs ++ (base ∷ [])
  pub added : available q ≡ available p ++ blocks (capacity - p.capacity) 0 base p.block_size
  pub same_used : q.used ≡ p.used
  pub same_blocks : q.block_size ≡ p.block_size

-- Why a pool does not grow: it is of constant size, or `malloc` fails.
abbrev pub Refused : Allocator → MemoryPool → ℕ → Type 0
Refused a p capacity =
    (p.flag % 2 ≡ 1)
    ⊎ ((a.bufs (8 * (p.num_buf + 1)) ≡ none)
        ⊎ ((a.block (p.block_size * (capacity - p.capacity) % 2 ^ 32) ≡ none)
            ⊎ (a.ptrs (8 * capacity) ≡ none)))

-- True with the pool as it was, where there is room; true with an enlarged pool; or false with the
-- pool as it was.
pub data Ensured (a : Allocator) (p : MemoryPool) (capacity : ℕ) : Bool × MemoryPool → Type 0 where
  enough : capacity ≤ p.capacity → Ensured a p capacity (true, p)
  enlarged :
      (q : MemoryPool)
      → p.capacity < capacity
      → Enlarged a p capacity q
      → Ensured a p capacity (true, q)
  refused : p.capacity < capacity → Refused a p capacity → Ensured a p capacity (false, p)

pub option-cases : {A : Type 0} (o : Option A) → (o ≡ none) ⊎ ((x : A) × (o ≡ some x))
option-cases none = inl refl
option-cases (some x) = inr (x, refl)

module _ (a : Allocator) (sized : Sized a) (p : MemoryPool) (v : IsValid p) (capacity : ℕ) where
  module _ (larger : p.capacity < capacity) where
    refusal :
        Refused a p capacity
        → ensure_space a p capacity ≡ some (false, p)
        → Yields (ensure_space a p capacity) (Ensured a p capacity)
    refusal cause e = ((false, p), e, refused larger cause)

    supplied :
        (small : capacity < 2 ^ 32) (some_used : 0 < p.used) (growable : p.flag % 2 ≡ 0)
        → Yields (ensure_space a p capacity) (Ensured a p capacity)
    unfolding ensure_space
    supplied small some_used growable = elim (option-cases (a.bufs (8 * (p.num_buf + 1)))) [
      | inl e1 ↦ refusal (inr (inl e1)) (ground (arith, larger, growable, e1))
      | inr (bufs, e1) ↦
          elim (option-cases (a.block (p.block_size * (capacity - p.capacity) % 2 ^ 32))) [
            | inl e2 ↦ refusal (inr (inr (inl e2))) (ground (arith, larger, growable, e1, e2))
            | inr (base, e2) ↦ elim (option-cases (a.ptrs (8 * capacity))) [
              | inl e3 ↦ refusal (inr (inr (inr e3))) (ground (arith, larger, growable, e1, e2, e3))
              | inr (ptrs, e3) ↦
                  let (q, run, g) =
                    grow-Grown p capacity base bufs ptrs v some_used larger small
                      (omega (arith, sized.bufs (8 * (p.num_buf + 1)) bufs e1))
                      (omega (arith, sized.ptrs (8 * capacity) ptrs e3)) in
                  (
                    (true, q),
                    ground (arith, larger, growable, e1, e2, e3, run),
                    enlarged q larger (record {
                      valid = g.valid;
                      large = g.large;
                      base = base;
                      given = e2;
                      buffer = g.buffer;
                      added = g.added;
                      same_used = g.same_used;
                      same_blocks = g.same_blocks;
                    }),
                  )
            ]
          ]
    ]

-- On a valid pool that has a block in use, or where there is room already, `ensure_space` up to fewer
-- than 2^32 blocks returns true and leaves the pool where there is room; or it returns true with a
-- valid pool of that capacity, with the same number of blocks in use and, at the end of the queue
-- of the others, the blocks of the buffer that `malloc` gave, which is added to the buffers; or it
-- returns false and leaves the pool, being of constant size or `malloc` having failed.
pub ensure_space-Ensured :
    (a : Allocator) (p : MemoryPool) (capacity : ℕ)
    → Sized a
    → IsValid p
    → capacity < 2 ^ 32
    → (0 < p.used) ⊎ (capacity ≤ p.capacity)
    → Yields (ensure_space a p capacity) (Ensured a p capacity)
unfolding ensure_space
ensure_space-Ensured a p capacity sized v small h = elim (le-or-gt capacity p.capacity) [
  | inl k ↦ ((true, p), ground (arith, k), enough k)
  | inr k ↦ elim (le-or-gt 1 (p.flag % 2)) [
    | inl odd ↦
        let constant : p.flag % 2 ≡ 1 = omega (arith, odd) in
        refusal a sized p v capacity k (inl constant) (ground (arith, k, constant))
    | inr even ↦
        let some_used : 0 < p.used = ground (arith, h, k) in
        supplied a sized p v capacity k small some_used (omega (arith, even))
  ]
]

-- The first unused block is handed out; or, where all are in use, the first of an enlarged pool; or
-- NULL, with the pool as it was.
pub data Allocated (a : Allocator) (p : MemoryPool) : Option ℕ × MemoryPool → Type 0 where
  taken : (r : Option ℕ × MemoryPool) → p.used < p.capacity → Taken p r → Allocated a p r
  grown :
      (q : MemoryPool) (r : Option ℕ × MemoryPool)
      → p.used ≡ p.capacity
      → Enlarged a p (p.capacity * 2) q
      → Taken q r
      → Allocated a p r
  exhausted : p.used ≡ p.capacity → Refused a p (p.capacity * 2) → Allocated a p (none, p)

-- On a valid pool of fewer than 2^31 blocks `alloc` returns the block that heads the queue of those
-- that are not in use and leaves a valid pool with the rest of the queue and one more block in use;
-- where all are in use it does so after the pool has been enlarged to twice its capacity by the
-- buffer that `malloc` gave; or, all being in use, it returns NULL and leaves the pool, which is of
-- constant size or for which `malloc` failed.
pub alloc-Allocated :
    (a : Allocator) (p : MemoryPool)
    → Sized a
    → IsValid p
    → p.capacity < 2 ^ 31
    → Yields (alloc a p) (Allocated a p)
unfolding alloc
alloc-Allocated a p sized v small = elim (le-or-gt p.capacity p.used) [
  | inr h ↦ let (r, run, t) = take_block-Taken p v h in (r, ground (arith, h, run), taken r h t)
  | inl h ↦
      let full : p.used ≡ p.capacity = omega (arith, h, v.in_use) in
      let double : p.capacity * 2 % 2 ^ 32 ≡ p.capacity * 2 = omega (arith, small) in
      let some_used : 0 < p.used = omega (arith, h, v.at_alloc) in
      let (e, ran, d) =
        ensure_space-Ensured a p (p.capacity * 2) sized v (omega (arith, small)) (inl some_used) in
      let doubled : ensure_space a p (p.capacity * 2 % 2 ^ 32) ≡ some e =
        ap (ensure_space a p) double ∙ ran in
      full_alloc full e doubled d (omega (arith, some_used, full))
]
  where
    full_alloc :
        p.used ≡ p.capacity
        → (e : Bool × MemoryPool) → ensure_space a p (p.capacity * 2 % 2 ^ 32) ≡ some e
        → Ensured a p (p.capacity * 2) e
        → 0 < p.capacity
        → Yields (alloc a p) (Allocated a p)
    full_alloc full e run (enough k) some_capacity = absurd (omega (arith, k, some_capacity))
    full_alloc full e run (enlarged q k g) some_capacity =
        let (r, took, t) =
          take_block-Taken q g.valid (omega (arith, g.large, g.same_used, full, some_capacity)) in
        (r, ground (arith, full, run, took), grown q r full g t)
    full_alloc full e run (refused k cause) some_capacity =
        ((none, p), ground (arith, full, run), exhausted full cause)
