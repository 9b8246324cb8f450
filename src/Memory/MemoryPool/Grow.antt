-- ===== src/Memory/MemoryPool/Grow.antt =====
-- A pool that is in use grows: the blocks of the new buffer are handed out after the others.
use mathlib.Core.List.{append_assoc}
use muggle_cc.Base.{
  ℕ, ◌+◌, ◌-◌, ◌^◌, ◌<◌, ◌≡◌, refl, sym, ap, subst, ◌∙◌, arith, some, List, [], ◌∷◌, ◌++◌, length,
  length-append, set, take, drop, slice, overwrite, length-slice, take_all, drop-append_ge,
  copy_out-eq, copy_in-eq, store-eq, Yields,
}
use muggle_cc.Memory.MemoryPool.{MemoryPool, Sections, copy_alloc, copy_free, add_buffer, grow}
use muggle_cc.Memory.MemoryPool.Ring.{ring, ring-slice}
use muggle_cc.Memory.MemoryPool.Queue.{IsValid, available}
use muggle_cc.Memory.MemoryPool.Split.{Split, sections-Split}
use muggle_cc.Memory.MemoryPool.Copying.{
  Written, Written-all, overwrite-Written, set-Written, copy_section-Written, fill_loop-Written,
  blocks, length-blocks,
}

-- What follows the first entries of an array.
slice-append : (xs ys : List ℕ) → slice (length xs) (length ys) (xs ++ ys) ≡ ys
unfolding slice
slice-append xs ys =
    let none_left : length xs - length xs ≡ 0 = omega arith in
    ap (take (length ys))
      (drop-append_ge (length xs) xs ys (omega arith) ∙ ap (λ k. drop k ys) none_left)
    ∙ take_all (length ys) ys (omega arith)

-- `q` is `p` with room for `capacity` blocks, the new ones in a buffer at `base`.
pub record Grown (p : MemoryPool) (capacity base : ℕ) (q : MemoryPool) : Type 0 where
  pub valid : IsValid q
  pub added : available q ≡ available p ++ blocks (capacity - p.capacity) 0 base p.block_size
  pub same_used : q.used ≡ p.used
  pub large : q.capacity ≡ capacity
  pub buffer : q.data_bufs ≡ p.data_bufs ++ (base ∷ [])
  pub same_blocks : q.block_size ≡ p.block_size

module _ (p : MemoryPool) (s : Sections) (v : IsValid p) (t : Split p s) (capacity base : ℕ) where
  -- The pointers of the new ring, those in use first.
  abbrev front : List ℕ
  front = slice s.free1.0 s.free1.1 p.ptr_buf ++ slice s.free2.0 s.free2.1 p.ptr_buf

  abbrev new_blocks : List ℕ
  new_blocks = blocks (capacity - p.capacity) 0 base p.block_size

  length-front : length front ≡ p.used
  length-front = omega (
    arith,
    length-append (slice s.free1.0 s.free1.1 p.ptr_buf) (slice s.free2.0 s.free2.1 p.ptr_buf),
    length-slice s.free1.0 s.free1.1 p.ptr_buf (omega (arith, t.free1_inside, v.full)),
    length-slice s.free2.0 s.free2.1 p.ptr_buf (omega (arith, t.free2_inside, v.full)),
    t.in_use,
  )

  length-available : length (available p) ≡ p.capacity - p.used
  length-available =
      ap length t.holds
      ∙ omega (
        arith,
        length-append (slice s.alloc1.0 s.alloc1.1 p.ptr_buf)
            (slice s.alloc2.0 s.alloc2.1 p.ptr_buf),
        length-slice s.alloc1.0 s.alloc1.1 p.ptr_buf (omega (arith, t.alloc1_inside, v.full)),
        length-slice s.alloc2.0 s.alloc2.1 p.ptr_buf (omega (arith, t.alloc2_inside, v.full)),
        t.not_in_use,
      )

  module _ (larger : p.capacity < capacity) where
    length-new_ring : length (front ++ (available p ++ new_blocks)) ≡ capacity
    length-new_ring = omega (
      arith,
      length-append front (available p ++ new_blocks),
      length-append (available p) new_blocks,
      length-front,
      length-available,
      length-blocks (capacity - p.capacity) 0 base p.block_size,
      v.in_use,
      larger,
    )

    -- Read from the first pointer that is not in use.
    ring-new_ring :
        ring capacity (capacity - p.used) p.used (front ++ (available p ++ new_blocks))
        ≡ available p ++ new_blocks
    ring-new_ring =
        let rest = available p ++ new_blocks in
        let long : length rest ≡ capacity - p.used =
          omega (arith, length-new_ring, length-append front rest, length-front) in
        ring-slice capacity (capacity - p.used) p.used (front ++ rest)
          (omega (arith, larger, v.in_use)) length-new_ring
        ∙ ap (λ n. slice p.used n (front ++ rest)) (sym long)
        ∙ ap (λ i. slice i (length rest) (front ++ rest)) (sym length-front)
        ∙ slice-append front rest

    -- The ring as the copies and the loop leave it.
    module _ (new_ptrs : List ℕ) (room : length new_ptrs ≡ capacity) where
      copy_free-Written : Yields (copy_free p.ptr_buf s new_ptrs) (Written capacity front)
      unfolding copy_free
      copy_free-Written =
          let start : Written capacity [] new_ptrs = record {
            whole = room;
            fits = omega arith;
            starts = refl;
          } in
          let (m1, run1, w1) =
            copy_section-Written capacity p.ptr_buf s.free1.0 s.free1.1 0 [] new_ptrs start refl
              (omega (arith, t.free1_inside, v.full)) (omega (arith, t.free1_inside, larger)) in
          let long =
            length-slice s.free1.0 s.free1.1 p.ptr_buf (omega (arith, t.free1_inside, v.full)) in
          let (m2, run2, w2) =
            copy_section-Written capacity p.ptr_buf s.free2.0 s.free2.1 s.free1.1
              (slice s.free1.0 s.free1.1 p.ptr_buf) m1 w1 (sym long)
              (omega (arith, t.free2_inside, v.full)) (omega (arith, t.in_use, v.in_use, larger)) in
          (m2, simp (run1, run2), w2)

      copy_alloc-Written :
          (m : List ℕ)
          → Written capacity front m
          → Yields
              (copy_alloc p.ptr_buf s (s.free1.1 + s.free2.1) m)
              (λ r. (r.0 ≡ p.capacity) × Written capacity (front ++ available p) r.1)
      unfolding copy_alloc
      copy_alloc-Written m w =
          let a1 = slice s.alloc1.0 s.alloc1.1 p.ptr_buf in
          let a2 = slice s.alloc2.0 s.alloc2.1 p.ptr_buf in
          let (m1, run1, w1) =
            copy_section-Written capacity p.ptr_buf s.alloc1.0 s.alloc1.1 (s.free1.1 + s.free2.1)
              front m w (t.in_use ∙ sym length-front) (omega (arith, t.alloc1_inside, v.full))
              (omega (arith, t.in_use, t.not_in_use, v.in_use, larger)) in
          let long =
            length-slice s.alloc1.0 s.alloc1.1 p.ptr_buf (omega (arith, t.alloc1_inside, v.full)) in
          let (m2, run2, w2) =
            copy_section-Written capacity p.ptr_buf s.alloc2.0 s.alloc2.1
              (s.free1.1 + s.free2.1 + s.alloc1.1) (front ++ a1) m1 w1
              (omega (arith, length-append front a1, length-front, long, t.in_use))
              (omega (arith, t.alloc2_inside, v.full))
              (omega (arith, t.in_use, t.not_in_use, v.in_use, larger)) in
          let whole : (front ++ a1) ++ a2 ≡ front ++ available p =
            append_assoc front a1 a2 ∙ ap (λ x. front ++ x) (sym t.holds) in
          (
            (s.free1.1 + s.free2.1 + s.alloc1.1 + s.alloc2.1, m2),
            ground (arith, t.not_empty, run1, run2),
            (
              omega (arith, t.in_use, t.not_in_use, v.in_use),
              subst (λ x. Written capacity x m2) whole w2,
            ),
          )

-- The array of buffers with room for one more, and the new buffer.
add_buffer-appends :
    (p : MemoryPool) (new_bufs : List ℕ) (base : ℕ)
    → IsValid p
    → length new_bufs ≡ p.num_buf + 1
    → add_buffer p new_bufs base ≡ some (p.data_bufs ++ (base ∷ []))
unfolding add_buffer slice
add_buffer-appends p new_bufs base v h =
    let n = p.num_buf in
    let old : slice 0 n p.data_bufs ≡ p.data_bufs =
      take_all n p.data_bufs (omega (arith, v.buffers)) in
    let start : Written (n + 1) [] new_bufs = record {
      whole = h;
      fits = omega arith;
      starts = refl;
    } in
    let w = overwrite-Written (n + 1) [] new_bufs p.data_bufs start (omega (arith, v.buffers)) in
    let bufs = overwrite 0 p.data_bufs new_bufs in
    let end = set-Written (n + 1) p.data_bufs bufs n base w (sym v.buffers) (omega arith) in
    let all =
      Written-all (n + 1) (p.data_bufs ++ (base ∷ [])) (set bufs n base) end
        (omega (arith, length-append p.data_bufs (base ∷ []), v.buffers)) in
    simp (
      copy_out-eq 0 n p.data_bufs (omega (arith, v.buffers)),
      old,
      copy_in-eq 0 p.data_bufs new_bufs (omega (arith, v.buffers, h)),
      store-eq bufs n base (omega (arith, w.whole)),
      all,
    )

-- With the memory that it asks for, a pool that is in use grows.
pub grow-Grown :
    (p : MemoryPool) (capacity base : ℕ) (new_bufs new_ptrs : List ℕ)
    → IsValid p
    → 0 < p.used
    → p.capacity < capacity
    → capacity < 2 ^ 32
    → length new_bufs ≡ p.num_buf + 1
    → length new_ptrs ≡ capacity
    → Yields (grow p capacity new_bufs base new_ptrs) (Grown p capacity base)
unfolding grow
grow-Grown p capacity base new_bufs new_ptrs v some_used larger small size room =
    let (s, split, t) = sections-Split p v some_used in
    let bufs = p.data_bufs ++ (base ∷ []) in
    let run0 = add_buffer-appends p new_bufs base v size in
    let (m2, run2, w2) = copy_free-Written p s v t capacity base larger new_ptrs room in
    let (r, run3, (end, w3)) =
      copy_alloc-Written p s v t capacity base larger new_ptrs room m2 w2 in
    let first = front p s v t capacity base in
    let fresh = new_blocks p s v t capacity base in
    let before : length (first ++ available p) ≡ p.capacity = omega (
      arith,
      length-append first (available p),
      length-front p s v t capacity base,
      length-available p s v t capacity base,
      v.in_use,
    ) in
    let (m4, run4, w4) =
      fill_loop-Written capacity (capacity - p.capacity) 0 r.0 base p.block_size
        (first ++ available p) r.1 w3 (omega (arith, end, before)) (omega (arith, end, larger)) in
    let joined = append_assoc first (available p) fresh in
    let ring_is : m4 ≡ first ++ (available p ++ fresh) =
      Written-all capacity (first ++ (available p ++ fresh)) m4
        (subst (λ x. Written capacity x m4) joined w4)
        (length-new_ring p s v t capacity base larger) in
    (
      record p {
        data_bufs = bufs;
        ptr_buf = m4;
        alloc_index = s.free1.1 + s.free2.1;
        free_index = 0;
        capacity = capacity;
        num_buf = p.num_buf + 1;
      },
      simp (run0, split, run2, run3, run4),
      record {
        valid = record {
          full = w4.whole;
          buffers = omega (arith, length-append p.data_bufs (base ∷ []), v.buffers);
          small = small;
          in_use = omega (arith, v.in_use, larger);
          at_alloc = omega (arith, t.in_use, v.in_use, larger);
          at_free = ground (arith, t.in_use, v.in_use, larger);
        };
        added =
            ap (λ i. ring capacity (capacity - p.used) i m4) t.in_use
            ∙ ap (ring capacity (capacity - p.used) p.used) ring_is
            ∙ ring-new_ring p s v t capacity base larger;
        same_used = refl;
        large = refl;
        buffer = refl;
        same_blocks = refl;
      },
    )
