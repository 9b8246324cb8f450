-- ===== src/Dsaa/Heap/Find.antt =====
-- `muggle_heap_find`, and `muggle_heap_clear`.
use mathlib.Core.List.{append_assoc}
use muggle_cc.Base.{
  ℕ, zero, suc, ◌+◌, ◌≤◌, ◌<◌, ◌≡◌, ◌≢◌, refl, ◌∙◌, Bool, not, ◌&&◌, Option, none, some, List, [],
  ◌∷◌, ◌++◌, length, set, get_or-set, length-set, get_elem?-eq-get_or, store-eq, if◌then◌else◌,
  ◌==◌, arith, Yields, ℕ_discrete, subst,
}
use muggle_cc.Dsaa.Utils.{Cmp, Ranks}
use muggle_cc.Dsaa.Heap.{Node, Heap, find_loop, find, clear_loop, clear}
use muggle_cc.Dsaa.Heap.Order.{at, freed, IsValid, rank_at}

abbrev null : Node
null = record { key = 0; value = 0 }

-- The first index from `lo` on and before `hi` whose key ranks like `key`, or none.
abbrev pub IsFirst : (ℕ → ℕ) → List Node → ℕ → ℕ → ℕ → Option ℕ → Type 0
IsFirst rank a lo hi key none = (i : ℕ) → lo ≤ i → i < hi → rank_at rank a i ≢ rank key
IsFirst rank a lo hi key (some i) =
    (lo ≤ i)
    × (i < hi)
    × (rank_at rank a i ≡ rank key)
    × ((j : ℕ) → lo ≤ j → j < i → rank_at rank a j ≢ rank key)

module _ (cmp : Cmp) (rank : ℕ → ℕ) (ranks : Ranks cmp rank) where
  find_loop-IsFirst :
      (n i : ℕ) (a : List Node) (key : ℕ)
      → i + n ≤ length a
      → Yields (find_loop cmp n i a key) (IsFirst rank a i (i + n) key)
  unfolding find_loop
  find_loop-IsFirst zero i a key h = (none, refl, λ j k l. absurd (omega arith))
  find_loop-IsFirst (suc n) i a key h =
      let load = get_elem?-eq-get_or a i null (omega arith) in
      let agree = ranks.agree (at a i).key key in
      elim (ℕ_discrete (rank_at rank a i) (rank key)) [
        | yes e ↦ (
          some i,
          ground (arith, load, agree),
          (omega arith, omega arith, e, λ j k l. absurd (omega arith)),
        )
        | no ne ↦
            let (r, run, first) = find_loop-IsFirst n (suc i) a key (omega arith) in
            (r, ground (arith, load, agree, run), wider r ne first)
      ]
    where
      wider :
          (r : Option ℕ)
          → rank_at rank a i ≢ rank key
          → IsFirst rank a (suc i) (suc i + n) key r
          → IsFirst rank a i (i + suc n) key r
      wider none ne first = λ j low high. elim (ℕ_discrete j i) [
        | yes e ↦ rw e ne
        | no apart ↦ first j (omega arith) (omega arith)
      ]
      wider (some k) ne (low, high, e, before) = (
        omega arith,
        omega arith,
        e,
        λ j l m. elim (ℕ_discrete j i) [
          | yes same ↦ rw same ne
          | no apart ↦ before j (omega arith) m
        ],
      )

  -- `muggle_heap_find` on a valid heap gives the first index whose key compares equal, and NULL
  -- only where no node's key does.
  pub find-IsFirst :
      (h : Heap) (key : ℕ)
      → IsValid rank h
      → Yields (find cmp h key) (IsFirst rank h.nodes 1 (suc h.size) key)
  unfolding find
  find-IsFirst h key v =
      let (r, run, first) =
        find_loop-IsFirst h.size 1 h.nodes key (omega (arith, v.full, v.room)) in
      let same : 1 + h.size ≡ suc h.size = omega arith in
      (r, run, subst (λ k. IsFirst rank h.nodes 1 k key r) same first)

-- What is freed of the `n` nodes from `i` on, in their order.
abbrev pub all_freed : Bool → Bool → List Node → ℕ → ℕ → List ℕ
all_freed free_key free_value a zero i = []
all_freed free_key free_value a (suc n) i =
    freed free_key free_value (at a i) ++ all_freed free_key free_value a n (suc i)

module _ (free_key free_value : Bool) where
  all_freed-set :
      (a : List Node) (n i j : ℕ) (x : Node)
      → j < length a
      → j < i
      → all_freed free_key free_value (set a j x) n i ≡ all_freed free_key free_value a n i
  all_freed-set a zero i j x h k = refl
  all_freed-set a (suc n) i j x h k =
      let same : at (set a j x) i ≡ at a i = ground (arith, get_or-set a j i x null h) in
      rw (same, all_freed-set a n (suc i) j x h (omega arith))

  clear_loop_frees :
      (n i : ℕ) (a : List Node)
      → i + n ≤ length a
      → Yields
          (clear_loop free_key free_value n i a)
          (λ out. (out.0 ≡ all_freed free_key free_value a n i) × (length out.1 ≡ length a))
  unfolding clear_loop
  clear_loop_frees zero i a h = (([], a), refl, (refl, refl))
  clear_loop_frees (suc n) i a h =
      let x = at a i in
      let rest = all_freed free_key free_value a n (suc i) in
      let b = set a i null in
      let size = length-set a i null in
      let (out, run, (frees, kept)) = clear_loop_frees n (suc i) b (omega (arith, size)) in
      let freed_key = if free_key && not (x.key == 0) then x.key ∷ [] else [] in
      let freed_value = if free_value && not (x.value == 0) then x.value ∷ [] else [] in
      (
        (freed_key ++ (freed_value ++ out.0), out.1),
        rw (get_elem?-eq-get_or a i null (omega arith), store-eq a i null (omega arith), run),
        (
          rw (frees, all_freed-set a n (suc i) i null (omega arith) (omega arith), append_assoc),
          kept ∙ size,
        ),
      )

-- `muggle_heap_clear` of a valid heap stays within the array, frees the keys and the values that
-- are not NULL and have a function to free them, each once and in the array's order, and leaves a
-- valid empty heap of the same capacity.
pub clear_frees :
    (free_key free_value : Bool) (rank : ℕ → ℕ) (h : Heap)
    → IsValid rank h
    → Yields (clear free_key free_value h) (λ out.
      (out.0 ≡ all_freed free_key free_value h.nodes h.size 1)
      × (out.1.size ≡ 0)
      × (out.1.capacity ≡ h.capacity)
      × IsValid rank out.1)
unfolding clear
clear_frees free_key free_value rank h v =
    let ((fs, nodes), run, (frees, size)) =
      clear_loop_frees free_key free_value h.size 1 h.nodes (omega (arith, v.full, v.room)) in
    (
      (fs, record { capacity = h.capacity; size = 0; nodes = nodes }),
      rw run,
      (
        frees,
        refl,
        refl,
        record {
          some_capacity = v.some_capacity;
          room = omega (arith, v.room);
          full = omega arith;
          ordered = λ c k l. absurd (omega arith);
        },
      ),
    )
