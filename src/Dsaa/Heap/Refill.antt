-- ===== src/Dsaa/Heap/Refill.antt =====
-- The loop of `muggle_heap_remove`, which moves a hole up or down.
use muggle_cc.Base.{
  ℕ, zero, suc, ◌+◌, ◌*◌, ◌/◌, ◌≤◌, ◌<◌, ◌≡◌, ◌≢◌, refl, List, length, set, get_or-set, length-set,
  get_elem?-eq-get_or, store-eq, arith, Yields, inl, inr, le-or-gt, ltb,
}
use muggle_cc.Dsaa.Utils.{Cmp, Ranks}
use muggle_cc.Dsaa.Heap.{Node, refill_loop}
use muggle_cc.Dsaa.Heap.Order.{at, rank_at, Settled, Settled-move}
use muggle_cc.Dsaa.Heap.Insert.{RiseInv, rise-here, rise-RiseInv}
use muggle_cc.Dsaa.Heap.Sink.{smaller_child-IsSmallerChild, SinkInv, sink-here, sink-SinkInv}

abbrev null : Node
null = record { key = 0; value = 0 }

module _ (cmp : Cmp) (rank : ℕ → ℕ) (ranks : Ranks cmp rank) (n : ℕ) (x : Node) where
  -- A hole that sinks: its parent does not rank above `x`.
  pub refill_loop_sinks :
      (fuel : ℕ) (a : List Node) (i : ℕ)
      → n < fuel + i
      → suc n < length a
      → at a (suc n) ≡ x
      → SinkInv cmp rank ranks a n i x
      → Yields (refill_loop cmp fuel a n (suc n) i) (Settled rank a n x i)
  unfolding refill_loop
  refill_loop_sinks zero a i f room last v = absurd (omega (arith, v.inside))
  refill_loop_sinks (suc fuel) a i f room last v =
      let last_load = get_elem?-eq-get_or a (suc n) null room in
      let parent = at a (i / 2) in
      let parent_load = get_elem?-eq-get_or a (i / 2) null (omega (arith, v.inside)) in
      let parent_agree = ranks.agree x.key parent.key in
      elim (le-or-gt (i * 2) n) [
        | inr leaf ↦ (
          (a, i),
          ground (arith, last_load, last, parent_load, parent_agree, v.above, v.inside),
          sink-here cmp rank ranks n x v (λ c h k l. absurd (omega arith)),
        )
        | inl inner ↦
            let (m, chosen, s) =
              smaller_child-IsSmallerChild cmp rank ranks (ltb (i * 2) n) a n i refl (omega arith)
                (omega (arith, v.inside)) inner in
            let child = at a m in
            let child_load = get_elem?-eq-get_or a m null (omega (arith, s.inside)) in
            let child_agree = ranks.agree x.key child.key in
            elim (le-or-gt (rank child.key) (rank x.key)) [
              | inr settled ↦ (
                (a, i),
                ground (
                  arith, chosen, last_load, child_load, last, child_agree, parent_load,
                  parent_agree, v.above, v.inside,
                ),
                sink-here cmp rank ranks n x v (λ c h k l. omega (arith, s.least c h k l)),
              )
              | inl below ↦
                  let b = set a i child in
                  let apart : i ≢ m = omega (arith, s.child, v.inside) in
                  let (out, run, t) =
                    refill_loop_sinks fuel b m (omega (arith, s.child, v.inside))
                      (omega (arith, length-set a i child))
                      (ground (arith, v.inside, last, get_or-set a i (suc n) child null))
                      (sink-SinkInv cmp rank ranks n x v s below) in
                  (
                    out,
                    ground (
                      arith,
                      chosen,
                      last_load,
                      child_load,
                      last,
                      child_agree,
                      parent_load,
                      parent_agree,
                      v.above,
                      v.inside,
                      store-eq a i child,
                      run,
                    ),
                    Settled-move rank m v.room v.inside (omega (arith, s.child, s.inside, v.inside))
                        apart t,
                  )
            ]
      ]

  -- A hole that rises: `x` ranks below all its children.
  pub refill_loop_rises :
      (fuel : ℕ) (a : List Node) (i : ℕ)
      → i < fuel
      → suc n < length a
      → at a (suc n) ≡ x
      → RiseInv cmp rank ranks a n i x
      → ((c : ℕ) → 2 ≤ c → c ≤ n → c / 2 ≡ i → rank x.key < rank_at rank a c)
      → Yields (refill_loop cmp fuel a n (suc n) i) (Settled rank a n x i)
  unfolding refill_loop
  refill_loop_rises zero a i f room last v strict = absurd (omega arith)
  refill_loop_rises (suc fuel) a i f room last v strict =
      let last_load = get_elem?-eq-get_or a (suc n) null room in
      let parent = at a (i / 2) in
      let parent_load = get_elem?-eq-get_or a (i / 2) null (omega (arith, v.inside)) in
      let parent_agree = ranks.agree x.key parent.key in
      let stop =
        λ (above : 2 ≤ i → rank parent.key ≤ rank x.key). rise-here cmp rank ranks n x v above in
      let here : (2 ≤ i → rank parent.key ≤ rank x.key)
          → Yields (refill_loop cmp (suc fuel) a n (suc n) i) (Settled rank a n x i) =
        λ above. elim (le-or-gt (i * 2) n) [
          | inr leaf ↦ (
            (a, i),
            ground (arith, last_load, last, parent_load, parent_agree, above, v.inside),
            stop above,
          )
          | inl inner ↦
              let (m, chosen, s) =
                smaller_child-IsSmallerChild cmp rank ranks (ltb (i * 2) n) a n i refl (omega arith)
                  (omega (arith, v.inside)) inner in
              (
                (a, i),
                ground (
                  arith,
                  chosen,
                  last_load,
                  last,
                  get_elem?-eq-get_or a m null (omega (arith, s.inside)),
                  ranks.agree x.key (at a m).key,
                  strict m (omega (arith, s.child, v.inside)) s.inside (omega (arith, s.child)),
                  parent_load,
                  parent_agree,
                  above,
                  v.inside,
                ),
                stop above,
              )
        ] in
      elim (le-or-gt 2 i) [
        | inr root ↦ here (λ two. absurd (omega arith))
        | inl two ↦ elim (le-or-gt (rank parent.key) (rank x.key)) [
          | inl settled ↦ here (λ _. settled)
          | inr above ↦
              let b = set a i parent in
              let (out, run, t) =
                refill_loop_rises fuel b (i / 2) (omega arith)
                  (omega (arith, length-set a i parent))
                  (ground (arith, v.inside, last, get_or-set a i (suc n) parent null))
                  (rise-RiseInv cmp rank ranks n x v two above)
                  (λ c h k l.
                    ground (arith, v.inside, v.room, v.edges c, get_or-set a i c parent null)) in
              (
                out,
                ground (
                  arith,
                  last_load,
                  last,
                  parent_load,
                  parent_agree,
                  v.inside,
                  store-eq a i parent,
                  run,
                ),
                Settled-move rank (i / 2) v.room v.inside (omega (arith, v.inside)) (omega arith) t,
              )
        ]
      ]
