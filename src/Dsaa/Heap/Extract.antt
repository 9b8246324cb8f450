-- ===== src/Dsaa/Heap/Extract.antt =====
-- `muggle_heap_extract`.
use muggle_cc.Base.{
  ℕ, zero, suc, ◌+◌, ◌-◌, ◌*◌, ◌≤◌, ◌<◌, ◌≡◌, ◌≢◌, refl, sym, ap, ◌∙◌, Bool, not, none, some, List,
  length, set, get_or-set, length-set, get_elem?-eq-get_or, store-eq, ◌==◌, arith, Yields, inl, inr,
  le-or-gt,
}
use muggle_cc.Dsaa.Utils.{Cmp, Ranks}
use muggle_cc.Dsaa.Heap.{Node, Heap, sink_loop, extract}
use muggle_cc.Dsaa.Heap.Order.{
  at, count_to, count, one, count_to-set, rank_at, IsHeap, IsValid, Settled, Settled-move,
  root_least,
}
use muggle_cc.Dsaa.Heap.Sink.{smaller_child-IsSmallerChild, SinkInv, sink-here, sink-SinkInv}

abbrev null : Node
null = record { key = 0; value = 0 }

module _ (cmp : Cmp) (rank : ℕ → ℕ) (ranks : Ranks cmp rank) (n : ℕ) (x : Node) where
  sink_loop_settles :
      (fuel : ℕ) (a : List Node) (i : ℕ)
      → n < fuel + i
      → suc n < length a
      → at a (suc n) ≡ x
      → SinkInv cmp rank ranks a n i x
      → Yields (sink_loop cmp fuel a n (suc n) i) (Settled rank a n x i)
  unfolding sink_loop
  sink_loop_settles zero a i f room last v = absurd (omega (arith, v.inside))
  sink_loop_settles (suc fuel) a i f room last v = elim (le-or-gt (i * 2) n) [
    | inr leaf ↦
        ((a, i), ground arith, sink-here cmp rank ranks n x v (λ c h k l. absurd (omega arith)))
    | inl inner ↦
        let (m, chosen, s) =
          smaller_child-IsSmallerChild cmp rank ranks (not (i * 2 == n)) a n i (ground arith)
            (omega arith) (omega (arith, v.inside)) inner in
        let child = at a m in
        let last_load = get_elem?-eq-get_or a (suc n) null room in
        let child_load = get_elem?-eq-get_or a m null (omega (arith, s.inside)) in
        elim (le-or-gt (rank child.key) (rank x.key)) [
          | inr settled ↦ (
            (a, i),
            ground (arith, chosen, last_load, child_load, last, ranks.agree x.key child.key),
            sink-here cmp rank ranks n x v (λ c h k l. omega (arith, s.least c h k l)),
          )
          | inl below ↦
              let b = set a i child in
              let apart : i ≢ m = omega (arith, s.child, v.inside) in
              let (out, run, t) =
                sink_loop_settles fuel b m (omega (arith, s.child, v.inside))
                  (omega (arith, length-set a i child))
                  (ground (arith, v.inside, last, get_or-set a i (suc n) child null))
                  (sink-SinkInv cmp rank ranks n x v s below) in
              (
                out,
                ground (
                  arith,
                  chosen,
                  last_load,
                  child_load,
                  last,
                  ranks.agree x.key child.key,
                  v.inside,
                  store-eq a i child,
                  run,
                ),
                Settled-move rank m v.room v.inside (omega (arith, s.child, s.inside, v.inside))
                    apart t,
              )
        ]
  ]

-- What `extract` promises on a heap with nodes.
pub record Extracted (rank : ℕ → ℕ) (h : Heap) (x : Node) (g : Heap) : Type 0 where
  pub valid : IsValid rank g
  pub capacity : g.capacity ≡ h.capacity
  pub size : suc g.size ≡ h.size
  pub same : (p : Node → Bool) → count p h ≡ count p g + one p x
  pub least : (i : ℕ) → 1 ≤ i → i ≤ h.size → rank x.key ≤ rank_at rank h.nodes i

-- `muggle_heap_extract` returns false exactly on an empty heap, which is unchanged.
pub extract-empty : (cmp : Cmp) (h : Heap) → h.size ≡ 0 → extract cmp h ≡ some (none, h)
unfolding extract
extract-empty cmp h e = ground arith

module _ (cmp : Cmp) (rank : ℕ → ℕ) (ranks : Ranks cmp rank) where
  sink_root :
      (h : Heap) (n : ℕ)
      → IsValid rank h
      → h.size ≡ suc n
      → Yields (sink_loop cmp (suc n) h.nodes n (suc n) 1) (λ out.
        (1 ≤ out.1)
        × (out.1 < length out.0)
        × (length out.0 ≡ length h.nodes)
        × (at out.0 (suc n) ≡ at h.nodes (suc n))
        × IsHeap rank (set out.0 out.1 (at h.nodes (suc n))) n
        × ((p : Node → Bool)
            → count_to p (set out.0 out.1 (at h.nodes (suc n))) n + one p (at h.nodes 1)
              ≡ count_to p h.nodes (suc n)))
  unfolding count_to
  sink_root h zero v e = (
    (h.nodes, 1),
    unfold sink_loop in ground arith,
    (
      omega arith,
      omega (arith, v.full, v.room),
      refl,
      refl,
      λ c k l. absurd (omega arith),
      λ p. refl,
    ),
  )
  sink_root h (suc k) v e =
      let n = suc k in
      let x = at h.nodes (suc n) in
      let room : suc n < length h.nodes = omega (arith, v.full, v.room) in
      let (out, run, s) =
        sink_loop_settles cmp rank ranks n x (suc n) h.nodes 1 (omega arith) room refl (record {
          inside = omega arith;
          room = omega arith;
          edges = λ c l m o q. v.ordered c l (omega arith);
          above = λ l. absurd (omega arith);
          bridge = λ c l m o q. absurd (omega arith);
        }) in
      (
        out,
        run,
        (
          s.inside.0,
          omega (arith, s.inside, s.size),
          s.size,
          s.past (suc n) (omega arith),
          s.ordered,
          λ p. omega (
            arith,
            s.same p,
            count_to-set p h.nodes 1 n x (omega arith) (omega arith) (omega arith),
          ),
        ),
      )

  -- `muggle_heap_extract` on a valid heap with nodes stays within the array, ends, and returns
  -- true: it takes out one node, of least rank, and leaves a valid heap of the others.
  pub extract_correct :
      (h : Heap)
      → IsValid rank h
      → 0 < h.size
      → (x : Node) × (g : Heap) × (extract cmp h ≡ some (some x, g)) × Extracted rank h x g
  unfolding extract
  extract_correct h v pos =
      let n = h.size - 1 in
      let size : h.size ≡ suc n = omega arith in
      let last = at h.nodes h.size in
      let (out, run, (low, high, same_length, kept, ordered, same)) = sink_root h n v size in
      (
        at h.nodes 1,
        record { capacity = h.capacity; size = n; nodes = set out.0 out.1 (at h.nodes (suc n)) },
        ground (
          arith,
          run,
          kept,
          v.room,
          v.full,
          get_elem?-eq-get_or h.nodes 1 null,
          get_elem?-eq-get_or out.0 h.size null,
          store-eq out.0 out.1 (at h.nodes (suc n)),
        ),
        record {
          valid = record {
            some_capacity = v.some_capacity;
            room = omega (arith, v.room, length-set out.0 out.1 (at h.nodes (suc n)));
            full = omega (arith, v.full);
            ordered = ordered;
          };
          capacity = refl;
          size = omega arith;
          same = λ p. ap (λ k. count_to p h.nodes k) size ∙ sym (same p);
          least = λ i l k. root_least rank h.nodes h.size i v.ordered l k;
        },
      )
