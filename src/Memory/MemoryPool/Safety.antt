-- ===== src/Memory/MemoryPool/Safety.antt =====
-- Runs of a client that frees only blocks that it holds: no block is lost or handed out twice.
use muggle_cc.Base.{
  ℕ, ◌+◌, ◌-◌, ◌*◌, ◌%◌, ◌^◌, ◌≤◌, ◌<◌, ◌≡◌, ◌⊎◌, inl, inr, refl, sym, ap, ◌∙◌, arith, subst, Bool,
  Option, none, some, List, [], ◌∷◌, ◌++◌, length, length-append, Yields,
}
use muggle_cc.Memory.MemoryPool.{MemoryPool, Allocator, alloc, free, ensure_space}
use muggle_cc.Memory.MemoryPool.Queue.{IsValid, available, Taken, free-Freed}
use muggle_cc.Memory.MemoryPool.Copying.{blocks}
use muggle_cc.Memory.MemoryPool.Alloc.{
  Sized, Enlarged, Ensured, enough, enlarged, refused, ensure_space-Ensured, Allocated, taken,
  grown, exhausted, alloc-Allocated,
}
use muggle_cc.Memory.MemoryPool.Occurrences.{occurrences, occurrences-append, blocks_once}

-- What the client holds after `alloc`.
abbrev pub receive : Option ℕ → List ℕ → List ℕ
receive none held = held
receive (some b) held = b ∷ held

-- How often a block is in the queue or with the client.
abbrev pub present : ℕ → MemoryPool → List ℕ → ℕ
present b q held = occurrences b (available q) + occurrences b held

-- What is relied on of `malloc` when a pool may grow: the buffer that it gives overlaps no block that
-- is there. Its size does not wrap around.
pub record Fresh (a : Allocator) (q : MemoryPool) (held : List ℕ) (capacity : ℕ) : Type 0 where
  pub arrays : Sized a
  pub some_bytes : 0 < q.block_size
  pub no_wrap : q.block_size * (capacity - q.capacity) < 2 ^ 32
  pub apart :
      (base i : ℕ)
      → a.block (q.block_size * (capacity - q.capacity) % 2 ^ 32) ≡ some base
      → i < capacity - q.capacity
      → present (base + i * q.block_size) q held ≡ 0

-- Calls from a pool and what the client holds to another pool and what it holds then; `malloc` may
-- fail or not in each.
pub data Run (p : MemoryPool) (h : List ℕ) : MemoryPool → List ℕ → Type 0 where
  done : Run p h p h
  allocated :
      (a : Allocator) (q : MemoryPool) (held : List ℕ) (r : Option ℕ × MemoryPool)
      → Run p h q held
      → Fresh a q held (q.capacity * 2)
      → q.capacity < 2 ^ 31
      → alloc a q ≡ some r
      → Run p h r.1 (receive r.0 held)
  freed :
      (q : MemoryPool) (xs ys : List ℕ) (b : ℕ) (r : MemoryPool)
      → Run p h q (xs ++ (b ∷ ys))
      → free q b ≡ some r
      → Run p h r (xs ++ ys)
  ensured :
      (a : Allocator) (q : MemoryPool) (held : List ℕ) (capacity : ℕ) (r : Bool × MemoryPool)
      → Run p h q held
      → Fresh a q held capacity
      → capacity < 2 ^ 32
      → (0 < q.used) ⊎ (capacity ≤ q.capacity)
      → ensure_space a q capacity ≡ some r
      → Run p h r.1 held

-- New buffers, the newest first, each with the number of its blocks: the buffers of a pool with
-- them, and all their blocks.
abbrev pub with_buffers : List ℕ → List (ℕ × ℕ) → List ℕ
with_buffers bufs [] = bufs
with_buffers bufs ((base, n) ∷ new) = with_buffers bufs new ++ (base ∷ [])

abbrev pub all_blocks : ℕ → List (ℕ × ℕ) → List ℕ
all_blocks block_size [] = []
all_blocks block_size ((base, n) ∷ new) = blocks n 0 base block_size ++ all_blocks block_size new

abbrev pub total : List (ℕ × ℕ) → ℕ
total [] = 0
total ((base, n) ∷ new) = n + total new

-- The client holds as many blocks as are in use; no block is in the queue and with the client more
-- than once; and the blocks there are those that were there at first and those of the new buffers,
-- which the pool has at the end of its buffers.
pub record Kept (p : MemoryPool) (h : List ℕ) (q : MemoryPool) (held : List ℕ) : Type 0 where
  pub valid : IsValid q
  pub counted : length held ≡ q.used
  pub once : (b : ℕ) → present b q held ≤ 1
  pub new : List (ℕ × ℕ)
  pub buffers : q.data_bufs ≡ with_buffers p.data_bufs new
  pub large : q.capacity ≡ p.capacity + total new
  pub same_blocks : q.block_size ≡ p.block_size
  pub same :
      (b : ℕ) → present b q held ≡ present b p h + occurrences b (all_blocks p.block_size new)

-- What a computation that is total yields, it yields whenever it returns.
returned : {A : Type 0} {P : A → Type 0} {o : Option A} (r : A) → Yields o P → o ≡ some r → P r
returned {P = P} r (x, e, y) run = subst P (cc (e, run)) y

module _ (p : MemoryPool) (h : List ℕ) where
  Kept-Enlarged :
      (a : Allocator) (q : MemoryPool) (held : List ℕ) (capacity : ℕ) (r : MemoryPool)
      → Kept p h q held
      → Fresh a q held capacity
      → q.capacity < capacity
      → Enlarged a q capacity r
      → Kept p h r held
  Kept-Enlarged a q held capacity r k f larger g =
      let n = capacity - q.capacity in
      let more = λ (b : ℕ).
        ap (occurrences b) g.added
        ∙ occurrences-append b (available q) (blocks n 0 g.base q.block_size) in
      let size : 0 * q.block_size + n * q.block_size < 2 ^ 32 = omega (arith, f.no_wrap) in
      record {
        valid = g.valid;
        counted = k.counted ∙ sym g.same_used;
        once = λ b. elim (blocks_once b n 0 g.base q.block_size f.some_bytes size) [
          | inl nowhere ↦ omega (arith, k.once b, more b, nowhere)
          | inr w ↦
              let before =
                ap (λ c. present c q held) w.address
                ∙ f.apart g.base w.index g.given (omega (arith, w.below)) in
              omega (arith, more b, w.once, before)
        ];
        new = (g.base, n) ∷ k.new;
        buffers = g.buffer ∙ ap (λ t. t ++ (g.base ∷ [])) k.buffers;
        large = omega (arith, g.large, k.large, larger);
        same_blocks = g.same_blocks ∙ k.same_blocks;
        same = λ b.
            let fill = ap (λ s. occurrences b (blocks n 0 g.base s)) k.same_blocks in
            omega (
              arith,
              more b,
              k.same b,
              fill,
              occurrences-append b (blocks n 0 g.base p.block_size) (all_blocks p.block_size k.new),
            );
      }

  Kept-Taken :
      (q : MemoryPool) (held : List ℕ) (r : Option ℕ × MemoryPool)
      → Kept p h q held
      → Taken q r
      → Kept p h r.1 (receive r.0 held)
  unfolding occurrences
  Kept-Taken q held r k t =
      let moved : (b : ℕ) → present b r.1 (t.block ∷ held) ≡ present b q held =
        λ b. omega (arith, ap (occurrences b) t.first) in
      subst (λ o. Kept p h r.1 (receive o held)) (sym t.returned)
        (record {
          valid = t.valid;
          counted = omega (arith, k.counted, t.counted);
          once = λ b. omega (arith, moved b, k.once b);
          new = k.new;
          buffers = t.same_buffers ∙ k.buffers;
          large = t.same_size ∙ k.large;
          same_blocks = t.same_blocks ∙ k.same_blocks;
          same = λ b. moved b ∙ k.same b;
        })

  Kept-alloc :
      (a : Allocator) (q : MemoryPool) (held : List ℕ) (r : Option ℕ × MemoryPool)
      → Kept p h q held
      → Fresh a q held (q.capacity * 2)
      → Allocated a q r
      → Kept p h r.1 (receive r.0 held)
  Kept-alloc a q held r k f (taken r' some_left t) = Kept-Taken q held r' k t
  Kept-alloc a q held r k f (grown q' r' full g t) =
      let larger : q.capacity < q.capacity * 2 = omega (arith, k.valid.at_alloc) in
      Kept-Taken q' held r' (Kept-Enlarged a q held (q.capacity * 2) q' k f larger g) t
  Kept-alloc a q held r k f (exhausted full cause) = k

  Kept-ensure_space :
      (a : Allocator) (q : MemoryPool) (held : List ℕ) (capacity : ℕ) (r : Bool × MemoryPool)
      → Kept p h q held
      → Fresh a q held capacity
      → Ensured a q capacity r
      → Kept p h r.1 held
  Kept-ensure_space a q held capacity r k f (enough room) = k
  Kept-ensure_space a q held capacity r k f (enlarged q' larger g) =
      Kept-Enlarged a q held capacity q' k f larger g
  Kept-ensure_space a q held capacity r k f (refused larger cause) = k

  Kept-free :
      (q : MemoryPool) (xs ys : List ℕ) (b : ℕ) (r : MemoryPool)
      → Kept p h q (xs ++ (b ∷ ys))
      → free q b ≡ some r
      → Kept p h r (xs ++ ys)
  unfolding occurrences
  Kept-free q xs ys b r k run =
      let many = length-append xs (b ∷ ys) in
      let t = returned r (free-Freed q b k.valid (omega (arith, k.counted, many))) run in
      let moved : (c : ℕ) → present c r (xs ++ ys) ≡ present c q (xs ++ (b ∷ ys)) = λ c. omega (
        arith,
        ap (occurrences c) t.last,
        occurrences-append c (available q) (b ∷ []),
        occurrences-append c xs (b ∷ ys),
        occurrences-append c xs ys,
      ) in
      record {
        valid = t.valid;
        counted = omega (arith, k.counted, many, length-append xs ys, t.counted);
        once = λ c. omega (arith, moved c, k.once c);
        new = k.new;
        buffers = t.same_buffers ∙ k.buffers;
        large = t.same_size ∙ k.large;
        same_blocks = t.same_blocks ∙ k.same_blocks;
        same = λ c. moved c ∙ k.same c;
      }

  -- From a valid pool, of whose blocks the client holds as many as are in use, no block being in the
  -- queue and with the client more than once, take any run of `alloc`, of `free` of blocks that the
  -- client holds and of `ensure_space`, where a block is in use or there is room already; `malloc` may
  -- fail in any of the calls, and where it does not, the buffer that it gives overlaps no block that
  -- is there; blocks have a size, and that of a new buffer does not wrap around. The run leaves a valid pool of whose blocks the client holds as many as are in use.
  -- No block is then in the queue and with the client more than once, so that none is handed out while
  -- it is held; and each is there as often as it was at first and stands in the new buffers, which
  -- are the last of the pool's, so that none is lost.
  pub Run-Kept :
      (q : MemoryPool) (held : List ℕ)
      → IsValid p
      → length h ≡ p.used
      → ((b : ℕ) → present b p h ≤ 1)
      → Run p h q held
      → Kept p h q held
  unfolding occurrences
  Run-Kept q held v n one done = record {
    valid = v;
    counted = n;
    once = one;
    new = [];
    buffers = refl;
    large = omega arith;
    same_blocks = refl;
    same = λ b. omega arith;
  }
  Run-Kept q' held' v n one (allocated a q held r run f small e) =
      let k = Run-Kept q held v n one run in
      Kept-alloc a q held r k f (returned r (alloc-Allocated a q f.arrays k.valid small) e)
  Run-Kept q' held' v n one (freed q xs ys b r run e) =
      Kept-free q xs ys b r (Run-Kept q (xs ++ (b ∷ ys)) v n one run) e
  Run-Kept q' held' v n one (ensured a q held capacity r run f small ready e) =
      let k = Run-Kept q held v n one run in
      Kept-ensure_space a q held capacity r k f
        (returned r (ensure_space-Ensured a q capacity f.arrays k.valid small ready) e)
