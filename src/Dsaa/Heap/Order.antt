-- ===== src/Dsaa/Heap/Order.antt =====
-- The order of a heap's keys, the nodes that it holds as a multiset, and arrays with a hole.
use muggle_cc.Base.{
  ℕ, zero, suc, ◌+◌, ◌/◌, ◌≤◌, ◌<◌, ◌≡◌, ◌≢◌, refl, ◌∙◌, Bool, not, ◌&&◌, ◌==◌, [], ◌∷◌, ◌++◌,
  length-set, List, length, set, get_or, get_or-set, if◌then◌else◌, arith,
}
use muggle_cc.Dsaa.Heap.{Node, Heap}

abbrev pub at : List Node → ℕ → Node
at a i = get_or a i (record { key = 0; value = 0 })

-- What the client's functions are called with for a node that goes.
abbrev pub freed : Bool → Bool → Node → List ℕ
freed free_key free_value x =
    (if free_key && not (x.key == 0) then x.key ∷ [] else [])
    ++ (if free_value && not (x.value == 0) then x.value ∷ [] else [])

-- How many of the nodes from 1 to `n` satisfy `p`.
unfoldable pub count_to : (Node → Bool) → List Node → ℕ → ℕ
count_to p a zero = 0
count_to p a (suc n) = count_to p a n + (if p (at a (suc n)) then 1 else 0)

-- How many nodes of the heap satisfy `p`: two heaps with the same counts hold the same nodes, as
-- often.
abbrev pub count : (Node → Bool) → Heap → ℕ
count p h = count_to p h.nodes h.size

abbrev pub one : (Node → Bool) → Node → ℕ
one p x = if p x then 1 else 0

pub count_to-set_past :
    (p : Node → Bool) (a : List Node) (i n : ℕ) (x : Node)
    → i < length a
    → n < i
    → count_to p (set a i x) n ≡ count_to p a n
unfolding count_to
count_to-set_past p a i zero x h k = refl
count_to-set_past p a i (suc n) x h k = ground (
  arith,
  count_to-set_past p a i n x h,
  get_or-set a i (suc n) x (record { key = 0; value = 0 }) h,
)

pub count_to-set :
    (p : Node → Bool) (a : List Node) (i n : ℕ) (x : Node)
    → i < length a
    → 0 < i
    → i ≤ n
    → count_to p (set a i x) n + one p (at a i) ≡ count_to p a n + one p x
unfolding count_to
count_to-set p a i zero x h k l = absurd (omega arith)
count_to-set p a i (suc n) x h k l = ground (
  arith,
  count_to-set p a i n x h k,
  count_to-set_past p a i n x h,
  get_or-set a i (suc n) x (record { key = 0; value = 0 }) h,
)

pub count_to_ext :
    (p : Node → Bool) (a b : List Node) (n : ℕ)
    → ((j : ℕ) → 1 ≤ j → j ≤ n → at a j ≡ at b j)
    → count_to p a n ≡ count_to p b n
unfolding count_to
count_to_ext p a b zero h = refl
count_to_ext p a b (suc n) h =
    rw (count_to_ext p a b n (λ j k l. h j k (omega arith)), h (suc n) (omega arith) (omega arith))

module _ (rank : ℕ → ℕ) where
  -- The rank of a node's key.
  abbrev pub rank_at : List Node → ℕ → ℕ
  rank_at a i = rank (at a i).key

  -- No node up to `n` ranks below its parent.
  abbrev pub IsHeap : List Node → ℕ → Type 0
  IsHeap a n = (c : ℕ) → 2 ≤ c → c ≤ n → rank_at a (c / 2) ≤ rank_at a c

  pub record IsValid (h : Heap) : Type 0 where
    pub some_capacity : 0 < h.capacity
    pub room : h.capacity < length h.nodes
    pub full : h.size ≤ h.capacity
    pub ordered : IsHeap h.nodes h.size

  root_least_below :
      (k : ℕ) (a : List Node) (n i : ℕ)
      → IsHeap a n
      → i < k
      → 1 ≤ i
      → i ≤ n
      → rank_at a 1 ≤ rank_at a i
  root_least_below zero a n i h f l p = absurd (omega arith)
  root_least_below (suc k) a n i h f l p = ground (arith, h i, root_least_below k a n (i / 2) h)

  -- The root of a heap has the least rank.
  pub root_least :
      (a : List Node) (n i : ℕ) → IsHeap a n → 1 ≤ i → i ≤ n → rank_at a 1 ≤ rank_at a i
  root_least a n i h l p = root_least_below (suc i) a n i h (omega arith) l p

  -- What a sifting loop does that starts with a hole at `i` for the node `x` and stops with the
  -- hole elsewhere: once filled with `x`, the array is in order and holds the same nodes.
  pub record Settled (a : List Node) (n : ℕ) (x : Node) (i : ℕ) (out : List Node × ℕ) : Type 0 where
    pub inside : (1 ≤ out.1) × (out.1 ≤ n)
    pub size : length out.0 ≡ length a
    pub ordered : IsHeap (set out.0 out.1 x) n
    pub same : (p : Node → Bool) → count_to p (set out.0 out.1 x) n ≡ count_to p (set a i x) n
    pub past : (j : ℕ) → n < j → at out.0 j ≡ at a j

  -- The hole moves from `i` to `j`, whose node moves to `i`.
  pub Settled-move :
      {a : List Node} {n i : ℕ} {x : Node} {out : List Node × ℕ} (j : ℕ)
      → n < length a
      → (1 ≤ i) × (i ≤ n)
      → (1 ≤ j) × (j ≤ n)
      → i ≢ j
      → Settled (set a i (at a j)) n x j out
      → Settled a n x i out
  Settled-move {a} {n} {i} {x} {out} j room hi hj apart s =
      let b = set a i (at a j) in
      let null : Node = record { key = 0; value = 0 } in
      let kept = length-set a i (at a j) in
      record {
        inside = s.inside;
        size = s.size ∙ kept;
        ordered = s.ordered;
        same = λ p. ground (
          arith,
          kept,
          s.same p,
          count_to-set p b j n x,
          count_to-set p a i n (at a j),
          count_to-set p a i n x,
          get_or-set a i j (at a j) null,
        );
        past = λ k h. s.past k h ∙ ground (arith, get_or-set a i k (at a j) null);
      }
