-- ===== src/Dsaa/Heap/Grow.antt =====
-- `muggle_heap_init` and `muggle_heap_ensure_capacity`.
use muggle_cc.Base.{
  ℕ, zero, suc, ◌+◌, ◌/◌, ◌^◌, ◌≤◌, ◌<◌, ◌≡◌, refl, ◌∙◌, Bool, true, false, Option, none, some,
  List, length, set, get_or-set, length-set, get_elem?-eq-get_or, store-eq, if◌then◌else◌, ◌==◌,
  arith, Yields, inl, inr, le-or-gt,
}
use muggle_cc.Dsaa.Utils.{Cmp}
use muggle_cc.Dsaa.Heap.{Node, Heap, Malloc, node_bytes, copy_loop, ensure_capacity, init}
use muggle_cc.Dsaa.Heap.Order.{at, count, count_to_ext, IsValid}

abbrev null : Node
null = record { key = 0; value = 0 }

-- What is relied on of `malloc`: the memory that it gives is as large as asked for.
abbrev pub Sized : Malloc → Type 0
Sized malloc = (bytes : ℕ) (m : List Node) → malloc bytes ≡ some m → length m ≡ bytes / 16

record Copied (n i : ℕ) (nodes new_nodes m : List Node) : Type 0 where
  size : length m ≡ length new_nodes
  before : (j : ℕ) → j ≤ i → at m j ≡ at new_nodes j
  within : (j : ℕ) → i < j → j ≤ i + n → at m j ≡ at nodes j

copy_loop_copies :
    (n i : ℕ) (nodes new_nodes : List Node)
    → i + n < length nodes
    → i + n < length new_nodes
    → Yields (copy_loop n i nodes new_nodes) (Copied n i nodes new_nodes)
unfolding copy_loop
copy_loop_copies zero i nodes new_nodes h k = (
  new_nodes,
  refl,
  record { size = refl; before = λ j l. refl; within = λ j l m. absurd (omega arith) },
)
copy_loop_copies (suc n) i nodes new_nodes h k =
    let node = at nodes (suc i) in
    let next = set new_nodes (suc i) node in
    let size = length-set new_nodes (suc i) node in
    let (m, run, c) = copy_loop_copies n (suc i) nodes next (omega arith) (omega arith) in
    let changed = λ (j : ℕ). get_or-set new_nodes (suc i) j node null (omega arith) in
    (
      m,
      ground (arith, get_elem?-eq-get_or nodes (suc i) null, store-eq new_nodes (suc i) node, run),
      record {
        size = c.size ∙ size;
        before = λ j l. ground (arith, c.before j, changed j);
        within = λ j l q. ground (arith, c.before j, c.within j, changed j);
      },
    )

-- What `ensure_capacity` promises for `capacity`.
pub record Ensured (rank : ℕ → ℕ) (malloc : Malloc) (h : Heap) (capacity : ℕ) (r : Bool × Heap)
    : Type 0 where
  pub valid : IsValid rank r.1
  pub size : r.1.size ≡ h.size
  pub same : (p : Node → Bool) → count p r.1 ≡ count p h
  pub large : r.0 ≡ true → capacity ≤ r.1.capacity
  pub refused : r.0 ≡ false → r.1 ≡ h
  pub cause : r.0 ≡ false → (h.capacity < capacity) × (malloc (node_bytes capacity) ≡ none)
  pub no_need : capacity ≤ h.capacity → r.1 ≡ h

module _ (rank : ℕ → ℕ) (malloc : Malloc) (sized : Sized malloc) where
  Copied-Ensured :
      (h : Heap) (capacity : ℕ) (fresh nodes : List Node)
      → IsValid rank h
      → h.capacity < capacity
      → capacity < length fresh
      → Copied h.size 0 h.nodes fresh nodes
      → Ensured rank malloc h capacity (true, record h { capacity = capacity; nodes = nodes })
  Copied-Ensured h capacity fresh nodes v more room c =
      let same = λ (j : ℕ) (l : 1 ≤ j) (k : j ≤ h.size). c.within j l (omega arith) in
      record {
        valid = record {
          some_capacity = omega arith;
          room = omega (arith, c.size);
          full = omega (arith, v.full);
          ordered = λ j l k.
              rw (same (j / 2) (omega arith) (omega arith), same j (omega arith) k)
                (v.ordered j l k);
        };
        size = refl;
        same = λ p. count_to_ext p nodes h.nodes h.size same;
        large = λ e. omega arith;
        refused = λ e. cc;
        cause = λ e. cc;
        no_need = λ e. absurd (omega arith);
      }

  -- On a valid heap and for a capacity below 2^59, `muggle_heap_ensure_capacity` stays within the
  -- arrays and keeps the heap valid with the same nodes. It returns true only with the capacity asked
  -- for, and false only where there was less and `malloc` failed, with the heap unchanged, as it is
  -- also where there was room already.
  pub ensure_capacity_correct :
      (h : Heap) (capacity : ℕ)
      → IsValid rank h
      → capacity < 2 ^ 59
      → Yields (ensure_capacity malloc h capacity) (Ensured rank malloc h capacity)
  unfolding ensure_capacity
  ensure_capacity_correct h capacity v small = elim (le-or-gt capacity h.capacity) [
    | inl enough ↦ (
      (true, h),
      ground arith,
      record {
        valid = v;
        size = refl;
        same = λ p. refl;
        large = λ e. enough;
        refused = λ e. cc;
        cause = λ e. cc;
        no_need = λ e. refl;
      },
    )
    | inr more ↦ grow (malloc (node_bytes capacity)) refl more
  ]
    where
      grow :
          (o : Option (List Node))
          → malloc (node_bytes capacity) ≡ o
          → h.capacity < capacity
          → Yields (ensure_capacity malloc h capacity) (Ensured rank malloc h capacity)
      grow none e more = (
        (false, h),
        ground (arith, e),
        record {
          valid = v;
          size = refl;
          same = λ p. refl;
          large = λ f. cc;
          refused = λ f. refl;
          cause = λ f. (more, e);
          no_need = λ f. refl;
        },
      )
      grow (some fresh) e more =
          let room : capacity < length fresh = omega (arith, sized (node_bytes capacity) fresh e) in
          let (nodes, run, c) =
            copy_loop_copies h.size 0 h.nodes fresh (omega (arith, v.full, v.room))
              (omega (arith, v.full)) in
          (
            (true, record h { capacity = capacity; nodes = nodes }),
            ground (arith, e, run),
            Copied-Ensured h capacity fresh nodes v more room c,
          )

  -- `muggle_heap_init` with a capacity below 2^59 gives a valid empty heap of that capacity, or of
  -- capacity 8 where 0 is asked for.
  pub init-IsValid :
      (cmp : Cmp) (capacity : ℕ) {h : Heap}
      → capacity < 2 ^ 59
      → init malloc (some cmp) capacity ≡ some h
      → IsValid rank h × (h.size ≡ 0) × (h.capacity ≡ (if capacity == 0 then 8 else capacity))
  unfolding init
  init-IsValid cmp capacity {h} small e =
      let asked = if capacity == 0 then 8 else capacity in go (malloc (node_bytes asked)) refl
    where
      go :
          (o : Option (List Node))
          → malloc (node_bytes (if capacity == 0 then 8 else capacity)) ≡ o
          → IsValid rank h × (h.size ≡ 0) × (h.capacity ≡ (if capacity == 0 then 8 else capacity))
      go none f = ground (arith, f)
      go (some m) f = (
        record {
          some_capacity = ground (arith, f);
          room = ground (arith, f, sized (node_bytes (if capacity == 0 then 8 else capacity)) m f);
          full = ground (arith, f);
          ordered = λ c k l. absurd (ground (arith, f));
        },
        ground (arith, f),
        ground (arith, f),
      )
