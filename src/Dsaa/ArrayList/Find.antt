-- ===== src/Dsaa/ArrayList/Find.antt =====
-- `muggle_array_list_index`, `muggle_array_list_find`, `muggle_array_list_clear`.
use muggle_cc.Base.{
  ℤ, pos, negsuc, ℕ, zero, suc, ◌+◌, ◌-◌, ◌^◌, ◌≤◌, ◌<◌, ◌≡◌, ◌≢◌, refl, Bool, true, false, none,
  some, List, [], length, get_or, slice, get_elem?-eq-get_or, arith, Yields, ℕ_discrete,
  if◌then◌else◌,
}
use muggle_cc.Dsaa.Utils.{Cmp, Ranks}
use muggle_cc.Dsaa.Cells.{non_null, free_loop_frees}
use muggle_cc.Dsaa.ArrayList.{ArrayList, get_index, index, find_loop, find, clear}
use muggle_cc.Dsaa.ArrayList.Casts.{get_index-small, to_int-small}
use muggle_cc.Dsaa.ArrayList.Grow.{IsValid, contents}

-- An index counts from the front, or from the end if it is negative, and every entry of a list of
-- below 2^31 entries has both: `muggle_array_list_index` gives that entry, and NULL for all other
-- indices.
pub index_counts :
    (l : ArrayList) (n : ℕ)
    → l.size < 2 ^ 31
    → (n < l.size → (index l (pos n) ≡ some n) × (index l (negsuc (l.size - 1 - n)) ≡ some n))
      × (l.size ≤ n → (index l (pos n) ≡ none) × (index l (negsuc n) ≡ none))
unfolding index
index_counts l n small = (
  λ h. (ground arith, ground (arith, get_index-small l (l.size - 1 - n))),
  λ h. (ground arith, ground (arith, get_index-small l n)),
)

pub get_index_bounds : (l : ArrayList) (i : ℤ) (idx : ℕ) → get_index l i ≡ some idx → idx < l.size
unfolding get_index
get_index_bounds l (pos n) idx e = ground arith
get_index_bounds l (negsuc n) idx e = ground arith

-- The first index from `lo` on and before `hi` whose data ranks like `key`, or -1 for none.
abbrev pub IsFirst : (ℕ → ℕ) → List ℕ → ℕ → ℕ → ℕ → ℤ → Type 0
IsFirst rank a lo hi key (negsuc n) =
    (n ≡ 0) × ((i : ℕ) → lo ≤ i → i < hi → rank (get_or a i 0) ≢ rank key)
IsFirst rank a lo hi key (pos i) =
    (lo ≤ i)
    × (i < hi)
    × (rank (get_or a i 0) ≡ rank key)
    × ((j : ℕ) → lo ≤ j → j < i → rank (get_or a j 0) ≢ rank key)

IsFirst-widen :
    (rank : ℕ → ℕ) (a : List ℕ) (i hi key : ℕ) (r : ℤ)
    → i < hi
    → rank (get_or a i 0) ≢ rank key
    → IsFirst rank a (suc i) hi key r
    → IsFirst rank a i hi key r
IsFirst-widen rank a i hi key (negsuc n) h ne (minus_one, first) = (
  minus_one,
  λ j low high. elim (ℕ_discrete j i) [ yes e ↦ rw e ne | no apart ↦ first j (omega arith) high ],
)
IsFirst-widen rank a i hi key (pos k) h ne (low, high, e, before) = (
  omega arith,
  high,
  e,
  λ j l m. elim (ℕ_discrete j i) [ yes same ↦ rw same ne | no apart ↦ before j (omega arith) m ],
)

module _ (cmp : Cmp) (rank : ℕ → ℕ) (ranks : Ranks cmp rank) where
  find_loop-IsFirst :
      (n i hi : ℕ) (a : List ℕ) (key : ℕ)
      → i + n ≡ hi
      → hi ≤ length a
      → hi < 2 ^ 31
      → Yields (find_loop cmp n i a key) (IsFirst rank a i hi key)
  unfolding find_loop
  find_loop-IsFirst zero i hi a key s h small =
      (negsuc 0, refl, (refl, λ j k l. absurd (omega arith)))
  find_loop-IsFirst (suc n) i hi a key s h small =
      let load = get_elem?-eq-get_or a i 0 (omega arith) in
      let agree = ranks.agree (get_or a i 0) key in
      elim (ℕ_discrete (rank (get_or a i 0)) (rank key)) [
        | yes e ↦ (
          pos i,
          ground (arith, load, agree, to_int-small i),
          (omega arith, omega arith, e, λ j k l. absurd (omega arith)),
        )
        | no ne ↦
            let (r, run, first) = find_loop-IsFirst n (suc i) hi a key (omega arith) h small in
            (
              r,
              ground (arith, load, agree, run),
              IsFirst-widen rank a i hi key r (omega arith) ne first,
            )
      ]

  -- `muggle_array_list_find` on a valid list gives the first index, from the start that an index
  -- names on, whose data compares equal, and -1 only where none does; for a list of below 2^31
  -- entries, whose indices are `int`s.
  pub find_least_index :
      (l : ArrayList) (i : ℤ) (key start : ℕ)
      → IsValid l
      → l.size < 2 ^ 31
      → get_index l i ≡ some start
      → Yields (find cmp l i key) (IsFirst rank l.nodes start l.size key)
  unfolding find
  find_least_index l i key start v small e =
      let inside : start < l.size = get_index_bounds l i start e in
      let (r, run, first) =
        find_loop-IsFirst (l.size - start) start l.size l.nodes key (omega arith)
          (omega (arith, v.room, v.full)) small in
      (r, rw (e, find) run, first)

-- `muggle_array_list_clear` of a valid list hands the data that are not NULL to `free`, each once
-- and in order, if there is such a function, and leaves a valid empty list of the same capacity.
pub clear_empties :
    (func_free : Bool) (l : ArrayList)
    → IsValid l
    → Yields (clear func_free l) (λ r.
      (r.0 ≡ (if func_free then non_null (contents l) else []))
      × IsValid r.1
      × (contents r.1 ≡ [])
      × (r.1.capacity ≡ l.capacity))
unfolding clear
clear_empties true l v =
    let frees = free_loop_frees l.size 0 l.nodes (omega (arith, v.room, v.full)) in
    (
      (non_null (contents l), record l { size = 0 }),
      unfold slice in rw frees,
      (
        refl,
        record { some_capacity = v.some_capacity; room = v.room; full = omega arith },
        refl,
        refl,
      ),
    )
clear_empties false l v = (
  ([], record l { size = 0 }),
  refl,
  (refl, record { some_capacity = v.some_capacity; room = v.room; full = omega arith }, refl, refl),
)
