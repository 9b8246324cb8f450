-- ===== src/Dsaa/Sort/Heapsort.antt =====
-- `muggle_heap_sort`: the heap holds what is still to come.
use muggle_cc.Base.{
  ℕ, zero, suc, ◌+◌, ◌-◌, ◌%◌, ◌^◌, ◌≤◌, ◌<◌, ◌≡◌, refl, sym, ◌∙◌, Bool, Option, none, some, List,
  [], ◌∷◌, length, ltb, arith, ap, Yields,
}
use muggle_cc.Dsaa.Utils.{Cmp, Ranks}
use muggle_cc.Dsaa.Heap
use muggle_cc.Dsaa.Heap.{Heap, Malloc, Node}
use muggle_cc.Dsaa.Heap.Order.{IsValid, count_to, rank_at}
use muggle_cc.Dsaa.Heap.Order
use muggle_cc.Dsaa.Heap.Grow.{Sized, init-IsValid}
use muggle_cc.Dsaa.Heap.Insert.{insert_room}
use muggle_cc.Dsaa.Heap.Extract.{extract_correct}
use muggle_cc.Dsaa.Sort.{insert_all, extract_all, heap_sort}
use muggle_cc.Dsaa.Sort.Gap.{at, count, SamePointers}
use muggle_cc.Dsaa.Sort.Insertion.{IsSorted}

-- A test on keys, as one on nodes.
abbrev on_key : (ℕ → Bool) → Node → Bool
on_key p x = p x.key

abbrev keys : (ℕ → Bool) → Heap → ℕ
keys p h = Order.count (on_key p) h

module _ (cmp : Cmp) (rank : ℕ → ℕ) (ranks : Ranks cmp rank) where
  insert_all_fills :
      (malloc : Malloc) (ptr : List ℕ) (h : Heap)
      → IsValid rank h
      → h.size + length ptr ≤ h.capacity
      → Yields (insert_all cmp malloc ptr h) (λ g.
        IsValid rank g
        × (g.size ≡ h.size + length ptr)
        × ((p : ℕ → Bool) → keys p g ≡ keys p h + count p ptr))
  unfolding insert_all
  insert_all_fills malloc [] h v room = (h, refl, (v, omega arith, λ p. omega arith))
  insert_all_fills malloc (key ∷ ptr) h v room =
      let (g, run, (valid, capacity, size, same)) =
        insert_room cmp rank ranks malloc h key 0 v (omega arith) in
      let (full, later, (valid', size', same')) =
        insert_all_fills malloc ptr g valid (omega (arith, capacity, size)) in
      (
        full,
        ground (arith, run, later),
        (valid', omega (arith, size, size'), λ p. omega (arith, same (on_key p), same' p)),
      )

  -- The test for keys of lower rank than `b`.
  abbrev below : ℕ → ℕ → Bool
  below b k = ltb (rank k) b

  none_below :
      (b : ℕ) (a : List Node) (n : ℕ)
      → ((i : ℕ) → 1 ≤ i → i ≤ n → b ≤ rank_at rank a i)
      → count_to (on_key (below b)) a n ≡ 0
  unfolding count_to
  none_below b a zero h = refl
  none_below b a (suc n) h = ground (
    arith,
    none_below b a n (λ i k l. h i k (omega arith)),
    h (suc n) (omega arith) (omega arith),
  )

  -- `n` keys in ascending order, of rank `b` and more.
  abbrev Drained : ℕ → ℕ → Heap → List ℕ → Type 0
  Drained b n h ptr =
      (length ptr ≡ n)
      × (0 < n → b ≤ rank (at ptr 0))
      × IsSorted rank ptr n
      × ((p : ℕ → Bool) → count p ptr ≡ keys p h)

  extract_all_drains :
      (n key b : ℕ) (h : Heap)
      → IsValid rank h
      → h.size ≡ n
      → keys (below b) h ≡ 0
      → Yields (extract_all cmp n key h) (Drained b n h)
  unfolding extract_all count_to
  extract_all_drains zero key b h v size over = (
    [],
    refl,
    (
      refl,
      λ k. absurd (omega arith),
      λ c k l. absurd (omega arith),
      λ p. sym (ap (λ k. count_to (on_key p) h.nodes k) size),
    ),
  )
  extract_all_drains (suc n) key b h v size over =
      let (x, g, run, out) = extract_correct cmp rank ranks h v (omega (arith, size)) in
      let rest : keys (below (rank x.key)) g ≡ 0 = omega (
        arith,
        out.same (on_key (below (rank x.key))),
        none_below (rank x.key) h.nodes h.size out.least,
      ) in
      let (ptr, later, (size', first, sorted, same)) =
        extract_all_drains n x.key (rank x.key) g out.valid (omega (arith, size, out.size)) rest in
      (
        x.key ∷ ptr,
        ground (arith, run, later),
        (
          ap suc size',
          λ k. ground (arith, over, out.same (on_key (below b))),
          ordered x.key ptr first sorted,
          λ p. omega (arith, same p, out.same (on_key p)),
        ),
      )
    where
      ordered :
          (y : ℕ) (ptr : List ℕ)
          → (0 < n → rank y ≤ rank (at ptr 0))
          → IsSorted rank ptr n
          → IsSorted rank (y ∷ ptr) (suc n)
      ordered y ptr first sorted zero k l = absurd (omega arith)
      ordered y ptr first sorted (suc zero) k l = first (omega arith)
      ordered y ptr first sorted (suc (suc c)) k l =
          let inner : suc c - 1 ≡ c = omega arith in
          let outer : suc (suc c) - 1 ≡ suc c = omega arith in
          omega (
            arith,
            sorted (suc c) (omega arith) (omega arith),
            ap (λ i. rank (at ptr i)) inner,
            ap (λ i. rank (at (y ∷ ptr) i)) outer,
          )

  no_keys : (p : Node → Bool) (h : Heap) → h.size ≡ 0 → Order.count p h ≡ 0
  no_keys p h e = ap (λ k. count_to p h.nodes k) e ∙ (unfold count_to in refl)

  -- `muggle_heap_sort` of `count` pointers, fewer than 2^32 - 1 of them, stays within the arrays
  -- and ends, and where it returns true it leaves the same pointers in ascending order. It returns
  -- false only where the heap cannot be made.
  pub heap_sort_sorts :
      (malloc : Malloc) (ptr : List ℕ)
      → Sized malloc
      → length ptr < 2 ^ 32 - 1
      → Yields (heap_sort cmp malloc ptr) (λ r. elim r [
        | none ↦ Heap.init malloc (some cmp) (length ptr + 1) ≡ none
        | some b ↦ IsSorted rank b (length ptr) × SamePointers b ptr
      ])
  unfolding heap_sort
  heap_sort_sorts malloc ptr sized small = go (Heap.init malloc (some cmp) (length ptr + 1)) refl
    where
      wrap : (length ptr % 2 ^ 32 + 1) % 2 ^ 32 ≡ length ptr + 1
      wrap = omega arith

      go :
          (o : Option Heap)
          → Heap.init malloc (some cmp) (length ptr + 1) ≡ o
          → Yields (heap_sort cmp malloc ptr) (λ r. elim r [
            | none ↦ Heap.init malloc (some cmp) (length ptr + 1) ≡ none
            | some b ↦ IsSorted rank b (length ptr) × SamePointers b ptr
          ])
      go none e = (none, ground (arith, wrap, e), e)
      go (some h) e =
          let (v, empty, capacity) =
            init-IsValid rank malloc sized cmp (length ptr + 1) (omega arith) e in
          let (full, filled, (v', size, same)) =
            insert_all_fills malloc ptr h v (ground (arith, empty, capacity)) in
          let (b, drained, (length_b, first, sorted, same')) =
            extract_all_drains (length ptr) 0 0 full v' (omega (arith, size, empty))
              (none_below 0 full.nodes full.size (λ i k l. omega arith)) in
          (
            some b,
            ground (arith, wrap, e, filled, drained),
            (sorted, (length_b, λ p. omega (arith, same p, same' p, no_keys (on_key p) h empty))),
          )
