-- ===== src/Memory/MemoryPool/Split.antt =====
-- The sections of the ring of a pool that is in use.
use mathlib.Core.List.{append-nil}
use muggle_cc.Base.{
  ◌+◌, ◌-◌, ◌≤◌, ◌<◌, ◌≡◌, inl, inr, sym, ap, ◌∙◌, arith, ◌++◌, slice, Yields, le-or-gt,
}
use muggle_cc.Memory.MemoryPool.{MemoryPool, Sections, sections}
use muggle_cc.Memory.MemoryPool.Ring.{ring, advance, ring-add, ring-slice}
use muggle_cc.Memory.MemoryPool.Queue.{IsValid, available}

-- The sections are inside the ring; the last two hold what is available.
pub record Split (p : MemoryPool) (s : Sections) : Type 0 where
  pub free1_inside : s.free1.0 + s.free1.1 ≤ p.capacity
  pub free2_inside : s.free2.0 + s.free2.1 ≤ p.capacity
  pub alloc1_inside : s.alloc1.0 + s.alloc1.1 ≤ p.capacity
  pub alloc2_inside : s.alloc2.0 + s.alloc2.1 ≤ p.capacity
  pub not_empty : 0 < s.free1.1
  pub in_use : s.free1.1 + s.free2.1 ≡ p.used
  pub not_in_use : s.alloc1.1 + s.alloc2.1 ≡ p.capacity - p.used
  pub holds :
      available p ≡ slice s.alloc1.0 s.alloc1.1 p.ptr_buf ++ slice s.alloc2.0 s.alloc2.1 p.ptr_buf

module _ (p : MemoryPool) (v : IsValid p) (some_used : 0 < p.used) where
  all_used : p.used ≡ p.capacity → Yields (sections p) (Split p)
  unfolding sections slice ring
  all_used h =
      let c = p.capacity in
      let f = p.free_index in
      let same : p.alloc_index ≡ f = ground (arith, v.at_free, v.at_alloc, h) in
      (
        record { free1 = (f, c - f); free2 = (0, f); alloc1 = (0, 0); alloc2 = (0, 0) },
        ground (arith, h, same),
        record {
          free1_inside = omega (arith, v.at_alloc, same);
          free2_inside = omega (arith, v.at_alloc, same);
          alloc1_inside = omega arith;
          alloc2_inside = omega arith;
          not_empty = omega (arith, v.at_alloc, same);
          in_use = omega (arith, v.at_alloc, same, h);
          not_in_use = omega (arith, h);
          holds =
              let none_left : c - p.used ≡ 0 = omega (arith, h) in
              ap (λ n. ring c n p.alloc_index p.ptr_buf) none_left;
        },
      )

  above : p.used < p.capacity → p.free_index < p.alloc_index → Yields (sections p) (Split p)
  unfolding sections
  above h k =
      let c = p.capacity in
      let f = p.free_index in
      let a = p.alloc_index in
      let round : c - p.used ≡ (c - a) + f = ground (arith, v.at_free, v.at_alloc, h, k) in
      let origin : advance c (c - a) a ≡ 0 = ground (arith, v.at_alloc) in
      (
        record { free1 = (f, a - f); free2 = (0, 0); alloc1 = (a, c - a); alloc2 = (0, f) },
        ground (arith, h, k),
        record {
          free1_inside = omega (arith, v.at_alloc, k);
          free2_inside = omega arith;
          alloc1_inside = omega (arith, v.at_alloc);
          alloc2_inside = omega (arith, v.at_alloc, k);
          not_empty = omega (arith, k);
          in_use = omega (arith, round, h, k, v.at_alloc);
          not_in_use = sym round;
          holds =
              ap (λ n. ring c n a p.ptr_buf) round
              ∙ ring-add c (c - a) f a p.ptr_buf (omega arith) v.at_alloc
              ∙ ap (λ i. ring c (c - a) a p.ptr_buf ++ ring c f i p.ptr_buf) origin
              ∙ ap (λ t. t ++ ring c f 0 p.ptr_buf)
                  (ring-slice c (c - a) a p.ptr_buf (omega (arith, v.at_alloc)) v.full)
              ∙ ap (λ t. slice a (c - a) p.ptr_buf ++ t)
                  (ring-slice c f 0 p.ptr_buf (omega (arith, v.at_alloc, k)) v.full);
        },
      )

  below : p.used < p.capacity → p.alloc_index ≤ p.free_index → Yields (sections p) (Split p)
  unfolding sections slice
  below h k =
      let c = p.capacity in
      let f = p.free_index in
      let a = p.alloc_index in
      let straight : c - p.used ≡ f - a = ground (arith, v.at_free, v.at_alloc, h, k) in
      let inside : f < c = ground (arith, v.at_free, v.at_alloc, h, k) in
      (
        record { free1 = (f, c - f); free2 = (0, a); alloc1 = (a, f - a); alloc2 = (0, 0) },
        ground (arith, h, k),
        record {
          free1_inside = omega (arith, inside);
          free2_inside = omega (arith, v.at_alloc);
          alloc1_inside = omega (arith, inside, k);
          alloc2_inside = omega arith;
          not_empty = omega (arith, inside);
          in_use = omega (arith, straight, h, k, inside);
          not_in_use = omega (arith, straight);
          holds =
              ap (λ n. ring c n a p.ptr_buf) straight
              ∙ ring-slice c (f - a) a p.ptr_buf (omega (arith, inside, k)) v.full
              ∙ sym (append-nil (slice a (f - a) p.ptr_buf));
        },
      )

  pub sections-Split : Yields (sections p) (Split p)
  sections-Split = elim (le-or-gt p.capacity p.used) [
    | inl h ↦ all_used (omega (arith, h, v.in_use))
    | inr h ↦ elim (le-or-gt p.alloc_index p.free_index) [ inl k ↦ below h k | inr k ↦ above h k ]
  ]
