-- ===== src/Dsaa/Heap/Insert.antt =====
-- `muggle_heap_insert`.
use muggle_cc.Base.{
  ℕ, zero, suc, ◌+◌, ◌*◌, ◌/◌, ◌%◌, ◌^◌, ◌≤◌, ◌<◌, ◌≡◌, ◌≢◌, refl, sym, ◌∙◌, Bool, true, false,
  some, List, length, set, get_or-set, length-set, get_elem?, get_elem?-eq-get_or, store-eq, arith,
  Yields, inl, inr, le-or-gt,
}
use muggle_cc.Dsaa.Utils.{Cmp, Ranks}
use muggle_cc.Dsaa.Heap.{Node, Heap, Malloc, rise_loop, insert, ensure_capacity}
use muggle_cc.Dsaa.Heap.Grow.{Sized, Ensured, ensure_capacity_correct}
use muggle_cc.Dsaa.Heap.Order.{
  at, count_to, count, one, count_to-set_past, rank_at, IsValid, Settled, Settled-move,
}

abbrev null : Node
null = record { key = 0; value = 0 }

module _ (cmp : Cmp) (rank : ℕ → ℕ) (ranks : Ranks cmp rank) where
  -- Only the edge above the hole at `i` may be out of order when the hole is filled with `x`.
  pub record RiseInv (a : List Node) (n i : ℕ) (x : Node) : Type 0 where
    pub inside : (1 ≤ i) × (i ≤ n)
    pub room : n < length a
    pub edges :
        (c : ℕ) → 2 ≤ c → c ≤ n → c ≢ i → c / 2 ≢ i → rank_at rank a (c / 2) ≤ rank_at rank a c
    pub below : (c : ℕ) → 2 ≤ c → c ≤ n → c / 2 ≡ i → rank x.key ≤ rank_at rank a c
    pub bridge :
        (c : ℕ) → 2 ≤ c → c ≤ n → c / 2 ≡ i → 2 ≤ i → rank_at rank a (i / 2) ≤ rank_at rank a c

  module _ (n : ℕ) (x : Node) where
    pub rise-here :
        {a : List Node} {i : ℕ}
        → RiseInv a n i x
        → (2 ≤ i → rank_at rank a (i / 2) ≤ rank x.key)
        → Settled rank a n x i (a, i)
    rise-here {a} {i} v above = record {
      inside = v.inside;
      size = refl;
      ordered = λ c h k. ground (
        arith,
        v.edges c,
        v.below c,
        above,
        get_or-set a i c x null,
        get_or-set a i (c / 2) x null,
      );
      same = λ p. refl;
      past = λ j h. refl;
    }

    pub rise-RiseInv :
        {a : List Node} {i : ℕ}
        → RiseInv a n i x
        → 2 ≤ i
        → rank x.key < rank_at rank a (i / 2)
        → RiseInv (set a i (at a (i / 2))) n (i / 2) x
    rise-RiseInv {a} {i} v two above =
        let b = at a (i / 2) in
        record {
          inside = omega arith;
          room = omega (arith, length-set a i b);
          edges = λ c h k l m. ground (
            arith,
            v.edges c,
            v.bridge c,
            get_or-set a i c b null,
            get_or-set a i (c / 2) b null,
          );
          below = λ c h k l. ground (arith, v.edges c, get_or-set a i c b null);
          bridge = λ c h k l m. ground (
            arith,
            v.edges c,
            v.edges (i / 2),
            get_or-set a i c b null,
            get_or-set a i (i / 2 / 2) b null,
          );
        }

    rise_loop_settles :
        (fuel : ℕ) (a : List Node) (i : ℕ)
        → i < fuel
        → RiseInv a n i x
        → Yields (rise_loop cmp fuel a i x.key) (Settled rank a n x i)
    unfolding rise_loop
    rise_loop_settles zero a i f v = absurd (omega arith)
    rise_loop_settles (suc fuel) a i f v = elim (le-or-gt 2 i) [
      | inr root ↦ ((a, i), ground arith, rise-here v (λ two. absurd (omega arith)))
      | inl two ↦
          let parent = at a (i / 2) in
          let found : get_elem? a (i / 2) ≡ some parent =
            get_elem?-eq-get_or a (i / 2) null (omega arith) in
          elim (le-or-gt (rank parent.key) (rank x.key)) [
            | inl settled ↦ (
              (a, i),
              ground (arith, found, ranks.agree parent.key x.key),
              rise-here v (λ _. settled),
            )
            | inr above ↦
                let b = set a i parent in
                let (out, run, s) =
                  rise_loop_settles fuel b (i / 2) (omega arith) (rise-RiseInv v two above) in
                (
                  out,
                  ground (arith, found, ranks.agree parent.key x.key, store-eq a i parent, run),
                  Settled-move rank (i / 2) v.room v.inside (omega arith) (omega arith) s,
                )
          ]
    ]

  -- A heap with room for another node.
  abbrev pub Added : Heap → Node → Heap → Type 0
  Added h x g =
      IsValid rank g
      × (g.capacity ≡ h.capacity)
      × (g.size ≡ suc h.size)
      × ((p : Node → Bool) → count p g ≡ count p h + one p x)

  pub insert_room :
      (malloc : Malloc) (h : Heap) (key value : ℕ)
      → IsValid rank h
      → h.size < h.capacity
      → (g : Heap) × (insert cmp malloc h key value ≡ some (true, g))
        × Added h (record { key = key; value = value }) g
  unfolding insert count_to
  insert_room malloc h key value v room =
      let x : Node = record { key = key; value = value } in
      let n = suc h.size in
      let start : RiseInv h.nodes n n x = record {
        inside = omega arith;
        room = omega (arith, v.room);
        edges = λ c k l m o. v.ordered c k (omega arith);
        below = λ c k l m. absurd (omega arith);
        bridge = λ c k l m o. absurd (omega arith);
      } in
      let ((b, j), run, s) = rise_loop_settles n x (suc n) h.nodes n (omega arith) start in
      let inside : j < length b = omega (arith, v.room, s.size, s.inside) in
      (
        record { capacity = h.capacity; size = n; nodes = set b j x },
        ground (arith, run, store-eq b j x),
        (
          record {
            some_capacity = v.some_capacity;
            room = omega (arith, v.room, s.size, length-set b j x);
            full = omega arith;
            ordered = s.ordered;
          },
          refl,
          refl,
          λ p. ground (
            arith,
            s.same p,
            v.room,
            count_to-set_past p h.nodes n h.size x,
            get_or-set h.nodes n n x null,
          ),
        ),
      )

  -- What `insert` promises.
  pub record Inserted (h : Heap) (x : Node) (r : Bool × Heap) : Type 0 where
    pub valid : IsValid rank r.1
    pub added :
        r.0 ≡ true
        → (r.1.size ≡ suc h.size) × ((p : Node → Bool) → count p r.1 ≡ count p h + one p x)
    pub refused : r.0 ≡ false → (r.1 ≡ h) × (h.size ≡ h.capacity)

  module _ (malloc : Malloc) (h g : Heap) (key value : ℕ) (full : h.capacity ≡ h.size) where
    insert-grown :
        ensure_capacity malloc h (h.capacity * 2 % 2 ^ 64) ≡ some (true, g)
        → g.size < g.capacity
        → insert cmp malloc h key value ≡ insert cmp malloc g key value
    unfolding insert
    insert-grown e room = ground (arith, e)

    insert-refused :
        ensure_capacity malloc h (h.capacity * 2 % 2 ^ 64) ≡ some (false, g)
        → insert cmp malloc h key value ≡ some (false, g)
    unfolding insert
    insert-refused e = ground (arith, e)

  -- On a valid heap of capacity below 2^58, `muggle_heap_insert` stays within the arrays and
  -- ends, and leaves a valid heap. Where it returns true the heap holds one node more, the given
  -- one beside the old ones; it returns false only on a full heap, which is unchanged.
  pub insert_correct :
      (malloc : Malloc) (h : Heap) (key value : ℕ)
      → Sized malloc
      → IsValid rank h
      → h.capacity < 2 ^ 58
      → Yields (insert cmp malloc h key value) (Inserted h (record { key = key; value = value }))
  insert_correct malloc h key value sized v small = elim (le-or-gt h.capacity h.size) [
    | inr room ↦
        let (g, run, (valid, capacity, size, same)) = insert_room malloc h key value v room in
        ((true, g), run, record { valid = valid; added = λ e. (size, same); refused = λ e. cc })
    | inl full ↦
        let capacity = h.capacity * 2 % 2 ^ 64 in
        let (r, run, ensured) =
          ensure_capacity_correct rank malloc sized h capacity v (omega arith) in
        grow r.0 r.1 (omega arith) run ensured
  ]
    where
      grow :
          (ok : Bool) (g : Heap)
          → h.capacity ≡ h.size
          → ensure_capacity malloc h (h.capacity * 2 % 2 ^ 64) ≡ some (ok, g)
          → Ensured rank malloc h (h.capacity * 2 % 2 ^ 64) (ok, g)
          → Yields
              (insert cmp malloc h key value)
              (Inserted h (record { key = key; value = value }))
      grow false g full e ensured = (
        (false, g),
        insert-refused malloc h g key value full e,
        record {
          valid = ensured.valid;
          added = λ f. cc;
          refused = λ f. (ensured.refused refl, sym full);
        },
      )
      grow true g full e ensured =
          let large = ensured.large refl in
          let room : g.size < g.capacity = omega (arith, ensured.size, v.some_capacity) in
          let (k, run, (valid, capacity, size, same)) =
            insert_room malloc g key value ensured.valid room in
          (
            (true, k),
            insert-grown malloc h g key value full e room ∙ run,
            record {
              valid = valid;
              added =
                  λ f. (omega (arith, ensured.size), λ p. omega (arith, same p, ensured.same p));
              refused = λ f. cc;
            },
          )
