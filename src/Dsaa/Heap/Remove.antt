-- ===== src/Dsaa/Heap/Remove.antt =====
-- `muggle_heap_remove`.
use muggle_cc.Base.{
  ℕ, suc, ◌+◌, ◌-◌, ◌/◌, ◌≤◌, ◌<◌, ◌≡◌, sym, ap, ◌∙◌, subst, Bool, true, false, some, List, [],
  length, set, get_or-set, length-set, get_elem?-eq-get_or, store-eq, arith, Yields, inl, inr, ◌⊎◌,
  le-or-gt,
}
use muggle_cc.Dsaa.Utils.{Cmp, Ranks}
use muggle_cc.Dsaa.Heap.{Node, Heap, refill_loop, remove}
use muggle_cc.Dsaa.Heap.Order.{
  at, freed, count_to, count, one, count_to-set, count_to-set_past, rank_at, IsHeap, IsValid,
  Settled,
}
use muggle_cc.Dsaa.Heap.Refill.{refill_loop_sinks, refill_loop_rises}

abbrev null : Node
null = record { key = 0; value = 0 }

-- What the loop leaves, read the way the code goes on: the node at the old end fills the hole.
record Refilled (rank : ℕ → ℕ) (a : List Node) (n tmp : ℕ) (out : List Node × ℕ) : Type 0 where
  pub size : length out.0 ≡ length a
  pub inside : (1 ≤ out.1) × (out.1 < length out.0)
  pub ordered : IsHeap rank (set out.0 out.1 (at out.0 (suc n))) n
  pub same :
      (p : Node → Bool)
      → count_to p (set out.0 out.1 (at out.0 (suc n))) n + one p (at a tmp) ≡ count_to p a (suc n)

module _ (cmp : Cmp) (rank : ℕ → ℕ) (ranks : Ranks cmp rank) where
  module _ (a : List Node) (n : ℕ) (room : suc n < length a) (heap : IsHeap rank a (suc n)) where
    direction :
        (tmp : ℕ)
        → (2 ≤ tmp → rank_at rank a (tmp / 2) ≤ rank_at rank a (suc n))
          ⊎ ((2 ≤ tmp) × (rank_at rank a (suc n) < rank_at rank a (tmp / 2)))
    direction tmp = elim (le-or-gt 2 tmp) [
      | inr root ↦ inl (λ two. absurd (omega arith))
      | inl two ↦ elim (le-or-gt (rank_at rank a (tmp / 2)) (rank_at rank a (suc n))) [
        | inl above ↦ inl (λ _. above)
        | inr below ↦ inr (two, below)
      ]
    ]

    -- The removed node is not the last one.
    refill_inner :
        (tmp : ℕ)
        → 1 ≤ tmp
        → tmp ≤ n
        → Yields
            (refill_loop cmp (suc (suc n)) (set a tmp null) n (suc n) tmp)
            (Refilled rank a n tmp)
    unfolding count_to
    refill_inner tmp low high =
        let x = at a (suc n) in
        let b = set a tmp null in
        let changed = λ (j : ℕ). get_or-set a tmp j null null (omega arith) in
        let size : length b ≡ length a = length-set a tmp null in
        let last : at b (suc n) ≡ x = ground (arith, changed (suc n)) in
        let (out, run, s) : Yields (refill_loop cmp (suc (suc n)) b n (suc n) tmp)
            (Settled rank b n x tmp) =
          elim (direction tmp) [
            | inl above ↦
                refill_loop_sinks cmp rank ranks n x (suc (suc n)) b tmp (omega arith) (omega arith)
                  last
                  (record {
                    inside = (low, high);
                    room = omega arith;
                    edges = λ c h k l m. ground (arith, heap c, changed c, changed (c / 2));
                    above = λ h. ground (arith, changed (tmp / 2));
                    bridge =
                        λ c h k l m. ground (arith, heap c, heap tmp, changed c, changed (tmp / 2));
                  })
            | inr (two, below) ↦
                refill_loop_rises cmp rank ranks n x (suc (suc n)) b tmp (omega arith) (omega arith)
                  last
                  (record {
                    inside = (low, high);
                    room = omega arith;
                    edges = λ c h k l m. ground (arith, heap c, changed c, changed (c / 2));
                    below = λ c h k l. ground (arith, heap c, heap tmp, changed c);
                    bridge =
                        λ c h k l m. ground (arith, heap c, heap tmp, changed c, changed (tmp / 2));
                  })
                  (λ c h k l. ground (arith, heap c, heap tmp, changed c))
          ] in
        let kept : at out.0 (suc n) ≡ x = s.past (suc n) (omega arith) ∙ last in
        (
          out,
          run,
          record {
            size = s.size ∙ size;
            inside = omega (arith, s.inside, s.size);
            ordered = subst (λ y. IsHeap rank (set out.0 out.1 y) n) (sym kept) s.ordered;
            same = λ p.
                subst
                  (λ y. count_to p (set out.0 out.1 y) n + one p (at a tmp) ≡ count_to p a (suc n))
                  (sym kept)
                  (ground (
                    arith,
                    s.same p,
                    count_to-set p b tmp n x,
                    count_to-set p a tmp n null,
                    changed tmp,
                  ));
          },
        )

    -- The removed node is the last one: the loop reads its cleared key.
    refill_last :
        Yields
          (refill_loop cmp (suc (suc n)) (set a (suc n) null) n (suc n) (suc n))
          (Refilled rank a n (suc n))
    unfolding count_to
    refill_last =
        let b = set a (suc n) null in
        let size : length b ≡ length a = length-set a (suc n) null in
        let changed = λ (j : ℕ). get_or-set a (suc n) j null null room in
        let parent = at a (suc n / 2) in
        let last_load = get_elem?-eq-get_or b (suc n) null (omega arith) in
        let parent_load = get_elem?-eq-get_or b (suc n / 2) null (omega arith) in
        let agree = ranks.agree 0 (at b (suc n / 2)).key in
        let stay : (2 ≤ suc n → rank parent.key ≤ rank 0)
            → Yields (refill_loop cmp (suc (suc n)) b n (suc n) (suc n))
                (Refilled rank a n (suc n)) =
          λ above. (
            (b, suc n),
            unfold refill_loop in
                ground (
                  arith,
                  last_load,
                  parent_load,
                  agree,
                  above,
                  changed (suc n),
                  changed (suc n / 2),
                ),
            record {
              size = size;
              inside = omega arith;
              ordered = λ c h k. ground (
                arith,
                heap c,
                changed c,
                changed (c / 2),
                get_or-set b (suc n) c (at b (suc n)) null,
                get_or-set b (suc n) (c / 2) (at b (suc n)) null,
              );
              same = λ p. omega (
                arith,
                count_to-set_past p b (suc n) n (at b (suc n)) (omega arith) (omega arith),
                count_to-set_past p a (suc n) n null room (omega arith),
              );
            },
          ) in
        elim (le-or-gt 2 (suc n)) [
          | inr single ↦ stay (λ two. absurd (omega arith))
          | inl two ↦ elim (le-or-gt (rank parent.key) (rank 0)) [
            | inl above ↦ stay (λ _. above)
            | inr below ↦
                let i = suc n / 2 in
                let d = set b (suc n) parent in
                let moved : (j : ℕ) → j ≤ n → at d j ≡ at a j =
                  λ j h. ground (arith, changed j, get_or-set b (suc n) j parent null) in
                let last : at d (suc n) ≡ parent =
                  ground (arith, get_or-set b (suc n) (suc n) parent null) in
                let inside : (1 ≤ i) × (i ≤ n) = omega arith in
                let wide : suc n < length d = omega (arith, length-set b (suc n) parent) in
                let (out, run, s) =
                  refill_loop_sinks cmp rank ranks n parent (suc n) d i (omega arith) wide last
                    (record {
                      inside = inside;
                      room = omega arith;
                      edges = λ c h k l m. ground (arith, heap c, moved c, moved (c / 2));
                      above = λ h. ground (arith, heap i, moved (i / 2));
                      bridge = λ c h k l m. ground (arith, heap c, heap i, moved c, moved (i / 2));
                    }) in
                let kept : at out.0 (suc n) ≡ parent = s.past (suc n) (omega arith) ∙ last in
                (
                  out,
                  unfold refill_loop in
                      ground (
                        arith,
                        last_load,
                        parent_load,
                        agree,
                        changed (suc n),
                        changed i,
                        store-eq b (suc n) parent,
                        run,
                      ),
                  record {
                    size = s.size ∙ length-set b (suc n) parent ∙ size;
                    inside = omega (arith, s.inside, s.size);
                    ordered = subst (λ y. IsHeap rank (set out.0 out.1 y) n) (sym kept) s.ordered;
                    same = λ p.
                        subst
                          (λ y.
                            count_to p (set out.0 out.1 y) n + one p (at a (suc n))
                            ≡ count_to p a n + one p (at a (suc n)))
                          (sym kept)
                          (let level : count_to p (set d i parent) n + one p parent
                                ≡ count_to p d n + one p parent =
                              ap (λ y. count_to p (set d i parent) n + one p y)
                                (sym (moved i inside.1))
                              ∙ count_to-set p d i n parent (omega arith) inside.0 inside.1 in
                            omega (
                              arith,
                              s.same p,
                              level,
                              count_to-set_past p b (suc n) n parent (omega arith) (omega arith),
                              count_to-set_past p a (suc n) n null room (omega arith),
                            ));
                  },
                )
          ]
        ]

  pub record Removed (h : Heap) (x : Node) (g : Heap) : Type 0 where
    pub valid : IsValid rank g
    pub size : suc g.size ≡ h.size
    pub same : (p : Node → Bool) → count p h ≡ count p g + one p x

  -- `muggle_heap_remove` of a node of a valid heap, the last one included, stays within the array
  -- and ends: it returns true, frees the key and the value of that node that are not NULL and have
  -- a function to free them, and leaves a valid heap of the other nodes. The comparison orders NULL
  -- too, which the last node's key is when it is compared.
  pub remove_correct :
      (free_key free_value : Bool) (h : Heap) (tmp : ℕ)
      → IsValid rank h
      → 1 ≤ tmp
      → tmp ≤ h.size
      → (g : Heap) × (remove cmp free_key free_value h tmp
          ≡ some (true, freed free_key free_value (at h.nodes tmp), g))
        × Removed h (at h.nodes tmp) g
  unfolding remove
  remove_correct free_key free_value h tmp v low high =
      let n = h.size - 1 in
      let size : h.size ≡ suc n = omega arith in
      let room : suc n < length h.nodes = omega (arith, v.full, v.room) in
      let heap : IsHeap rank h.nodes (suc n) = subst (IsHeap rank h.nodes) size v.ordered in
      let (out, run, s) = refill h.nodes n room heap tmp low (omega arith) in
      let last = at out.0 (suc n) in
      (
        record { capacity = h.capacity; size = n; nodes = set out.0 out.1 last },
        ground (
          arith,
          get_elem?-eq-get_or h.nodes tmp null,
          store-eq h.nodes tmp null,
          run,
          s.inside,
          s.size,
          get_elem?-eq-get_or out.0 h.size null,
          store-eq out.0 out.1 last,
        ),
        record {
          valid = record {
            some_capacity = v.some_capacity;
            room = omega (arith, v.room, s.size, length-set out.0 out.1 last);
            full = omega (arith, v.full);
            ordered = s.ordered;
          };
          size = omega arith;
          same = λ p. ap (λ k. count_to p h.nodes k) size ∙ sym (s.same p);
        },
      )
    where
      refill :
          (a : List Node) (n : ℕ)
          → suc n < length a
          → IsHeap rank a (suc n)
          → (tmp : ℕ) → 1 ≤ tmp
          → tmp ≤ suc n
          → Yields
              (refill_loop cmp (suc (suc n)) (set a tmp null) n (suc n) tmp)
              (Refilled rank a n tmp)
      refill a n room heap tmp low high = elim (le-or-gt tmp n) [
        | inl inner ↦ refill_inner a n room heap tmp low inner
        | inr last ↦
            let same : suc n ≡ tmp = omega arith in
            subst
              (λ t.
                Yields (refill_loop cmp (suc (suc n)) (set a t null) n (suc n) t)
                  (Refilled rank a n t))
              same (refill_last a n room heap)
      ]

  -- On a pointer that is no node of the heap, `muggle_heap_remove` returns false and changes
  -- nothing.
  pub remove_outside :
      (free_key free_value : Bool) (h : Heap) (tmp : ℕ)
      → ((tmp ≡ 0) ⊎ (h.size < tmp))
      → remove cmp free_key free_value h tmp ≡ some (false, [], h)
  unfolding remove
  remove_outside free_key free_value h tmp e = ground arith
