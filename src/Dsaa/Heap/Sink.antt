-- ===== src/Dsaa/Heap/Sink.antt =====
-- A hole that sinks below its smaller child, as in `muggle_heap_extract` and `muggle_heap_remove`.
use muggle_cc.Base.{
  ℕ, ◌+◌, ◌*◌, ◌/◌, ◌≤◌, ◌<◌, ◌≡◌, ◌≢◌, refl, Bool, List, length, set, get_or-set, length-set,
  get_elem?-eq-get_or, arith, Yields, inl, inr, ◌⊎◌, le-or-gt, ltb,
}
use muggle_cc.Dsaa.Utils.{Cmp, Ranks}
use muggle_cc.Dsaa.Heap.{Node, smaller_child}
use muggle_cc.Dsaa.Heap.Order.{at, rank_at, Settled}

abbrev null : Node
null = record { key = 0; value = 0 }

module _ (cmp : Cmp) (rank : ℕ → ℕ) (ranks : Ranks cmp rank) where
  -- `m` is a child of `i` up to `n` that ranks no child of `i` below it.
  pub record IsSmallerChild (a : List Node) (n i m : ℕ) : Type 0 where
    pub child : (m ≡ i * 2) ⊎ (m ≡ i * 2 + 1)
    pub inside : m ≤ n
    pub least : (c : ℕ) → 2 ≤ c → c ≤ n → c / 2 ≡ i → rank_at rank a m ≤ rank_at rank a c

  -- Both loops compare the right child exactly if there is one.
  pub smaller_child-IsSmallerChild :
      (more : Bool) (a : List Node) (n i : ℕ)
      → more ≡ ltb (i * 2) n
      → n < length a
      → 1 ≤ i
      → i * 2 ≤ n
      → Yields (smaller_child cmp more a (i * 2)) (IsSmallerChild a n i)
  unfolding smaller_child
  smaller_child-IsSmallerChild more a n i e room pos h = elim (le-or-gt n (i * 2)) [
    | inl only ↦ (
      i * 2,
      ground arith,
      record {
        child = inl refl;
        inside = h;
        least = λ c k l m. let same : c ≡ i * 2 = omega arith in rw same (omega arith);
      },
    )
    | inr both ↦
        let left = at a (i * 2) in
        let right = at a (i * 2 + 1) in
        let load_left = get_elem?-eq-get_or a (i * 2) null in
        let load_right = get_elem?-eq-get_or a (i * 2 + 1) null in
        let agree = ranks.agree right.key left.key in
        let child_eq =
          λ (c : ℕ) (k : c / 2 ≡ i). let two : (c ≡ i * 2) ⊎ (c ≡ i * 2 + 1) = omega arith in two in
        elim (le-or-gt (rank left.key) (rank right.key)) [
          | inl first ↦ (
            i * 2,
            ground (arith, load_left, load_right, agree),
            record {
              child = inl refl;
              inside = h;
              least = λ c k l m. ground (arith, child_eq c m);
            },
          )
          | inr second ↦ (
            i * 2 + 1,
            ground (arith, load_left, load_right, agree),
            record {
              child = inr refl;
              inside = omega arith;
              least = λ c k l m. ground (arith, child_eq c m);
            },
          )
        ]
  ]

  -- Only the edges below the hole at `i` may be out of order when the hole is filled with `x`.
  pub record SinkInv (a : List Node) (n i : ℕ) (x : Node) : Type 0 where
    pub inside : (1 ≤ i) × (i ≤ n)
    pub room : n < length a
    pub edges :
        (c : ℕ) → 2 ≤ c → c ≤ n → c ≢ i → c / 2 ≢ i → rank_at rank a (c / 2) ≤ rank_at rank a c
    pub above : 2 ≤ i → rank_at rank a (i / 2) ≤ rank x.key
    pub bridge :
        (c : ℕ) → 2 ≤ c → c ≤ n → c / 2 ≡ i → 2 ≤ i → rank_at rank a (i / 2) ≤ rank_at rank a c

  module _ (n : ℕ) (x : Node) where
    pub sink-here :
        {a : List Node} {i : ℕ}
        → SinkInv a n i x
        → ((c : ℕ) → 2 ≤ c → c ≤ n → c / 2 ≡ i → rank x.key ≤ rank_at rank a c)
        → Settled rank a n x i (a, i)
    sink-here {a} {i} v below = record {
      inside = v.inside;
      size = refl;
      ordered = λ c h k. ground (
        arith,
        v.edges c,
        below c,
        v.above,
        get_or-set a i c x null,
        get_or-set a i (c / 2) x null,
      );
      same = λ p. refl;
      past = λ j h. refl;
    }

    pub sink-SinkInv :
        {a : List Node} {i m : ℕ}
        → SinkInv a n i x
        → IsSmallerChild a n i m
        → rank_at rank a m ≤ rank x.key
        → SinkInv (set a i (at a m)) n m x
    sink-SinkInv {a} {i} {m} v s le =
        let b = at a m in
        let pos : 2 ≤ m = omega (arith, s.child, v.inside) in
        let half : m / 2 ≡ i = omega (arith, s.child) in
        record {
          inside = omega (arith, s.inside);
          room = omega (arith, length-set a i b, v.room);
          edges = λ c h k l o. ground (
            arith,
            v.inside,
            v.room,
            v.edges c,
            v.bridge m,
            s.least c,
            get_or-set a i c b null,
            get_or-set a i (c / 2) b null,
          );
          above = λ h. ground (arith, v.inside, v.room, get_or-set a i (m / 2) b null);
          bridge = λ c h k l o. ground (
            arith,
            v.inside,
            v.room,
            v.edges c,
            get_or-set a i c b null,
            get_or-set a i (m / 2) b null,
          );
        }
