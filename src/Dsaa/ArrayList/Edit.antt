-- ===== src/Dsaa/ArrayList/Edit.antt =====
-- `muggle_array_list_insert`, `muggle_array_list_append` and `muggle_array_list_remove` on the
-- contents.
use muggle_cc.Base.{
  ℤ, pos, negsuc, ℕ, zero, suc, ◌+◌, ◌-◌, ◌^◌, ◌≤◌, ◌<◌, ◌≡◌, refl, ap, ◌∙◌, Bool, true, false,
  Option, none, some, List, [], ◌∷◌, take, set, get_elem?, get_elem?-set, length-set, ◌==◌,
  if◌then◌else◌, arith, Yields, inl, inr, ◌⊎◌, store-eq, list_ext, get_elem?-take,
}
use muggle_cc.Dsaa.Cells.{Malloc, Sized}
use muggle_cc.Dsaa.ArrayList.{
  ArrayList, get_index, place, shift_right, insert_at, append_at, insert, append, remove, make_room,
}
use muggle_cc.Dsaa.ArrayList.Casts.{rounds-small}
use muggle_cc.Dsaa.ArrayList.Grow.{IsValid, contents, Roomy, make_room-Roomy}
use muggle_cc.Dsaa.ArrayList.Find.{get_index_bounds}
use muggle_cc.Dsaa.ArrayList.Shift.{
  spliced, cut, ShiftedRight, shift_right-ShiftedRight, shift_left-ShiftedLeft, get_elem?-spliced,
  get_elem?-cut,
}

-- The valid list of the contents `xs`.
abbrev pub Holds : List ℕ → ArrayList → Type 0
Holds xs l = IsValid l × (contents l ≡ xs)

module _ (l : ArrayList) (x idx : ℕ) (v : IsValid l) (room : l.size < l.capacity) where
  spliced-Holds :
      (m : List ℕ)
      → idx ≤ l.size
      → ShiftedRight (l.size - idx) idx l.nodes m
      → Holds (spliced idx x (contents l)) (record l { size = suc l.size; nodes = set m idx x })
  spliced-Holds m h s = (
    record {
      some_capacity = v.some_capacity;
      room = omega (arith, v.room, s.size, length-set m idx x);
      full = omega arith;
    },
    list_ext (take (suc l.size) (set m idx x)) (spliced idx x (contents l)) λ j. ground (
      arith,
      v.room,
      s.size,
      get_elem?-take (suc l.size) (set m idx x) j,
      get_elem?-set m idx j x,
      s.cells j,
      get_elem?-spliced l.size idx x l.nodes j,
    ),
  )

  insert_at-Holds :
      idx ≤ l.size
      → l.size < 2 ^ 31
      → Yields (insert_at l idx x) (λ r. (r.0 ≡ some idx) × Holds (spliced idx x (contents l)) r.1)
  unfolding insert_at
  insert_at-Holds h few =
      let (m, run, s) =
        shift_right-ShiftedRight (l.size - idx) idx l.nodes (omega (arith, v.room)) in
      (
        (some idx, record l { size = suc l.size; nodes = set m idx x }),
        ground (arith, rounds-small l.size idx few, run, store-eq m idx x, s.size, v.room),
        (refl, spliced-Holds m h s),
      )

shift_right-none : (n idx : ℕ) (a : List ℕ) → n ≡ 0 → shift_right n idx a ≡ some a
unfolding shift_right
shift_right-none zero idx a e = refl
shift_right-none (suc n) idx a e = absurd (omega arith)

-- The index that `append` fills after `idx`.
abbrev pub after : ArrayList → ℕ → ℕ
after l idx = if l.size == 0 then 0 else idx + 1

append_at-Holds :
    (l : ArrayList) (x idx : ℕ)
    → IsValid l
    → l.size < l.capacity
    → l.size < 2 ^ 31
    → (idx < l.size) ⊎ (l.size ≡ 0)
    → Yields
        (append_at l idx x)
        (λ r. (r.0 ≡ some (after l idx)) × Holds (spliced (after l idx) x (contents l)) r.1)
unfolding append_at
append_at-Holds l x idx v room few (inr none_yet) =
    let s : ShiftedRight (l.size - 0) 0 l.nodes l.nodes = record {
      size = refl;
      cells = λ j. ground arith;
    } in
    let at : after l idx ≡ 0 = ground arith in
    rw at (
      (some 0, record l { size = suc l.size; nodes = set l.nodes 0 x }),
      ground (
        arith,
        rounds-small l.size (idx + 1) few,
        shift_right-none (l.size - (idx + 1)) (idx + 1) l.nodes,
        store-eq l.nodes 0 x,
        v.room,
      ),
      (refl, spliced-Holds l x 0 v room l.nodes (omega arith) s),
    )
append_at-Holds l x idx v room few (inl inside) =
    let (m, run, s) =
      shift_right-ShiftedRight (l.size - (idx + 1)) (idx + 1) l.nodes (omega (arith, v.room)) in
    let at : after l idx ≡ idx + 1 = ground arith in
    rw at (
      (some (idx + 1), record l { size = suc l.size; nodes = set m (idx + 1) x }),
      ground
          (arith, rounds-small l.size (idx + 1) few, run, store-eq m (idx + 1) x, s.size, v.room),
      (refl, spliced-Holds l x (idx + 1) v room m (omega arith) s),
    )

place_bounds :
    (l : ArrayList) (i : ℤ) (idx : ℕ)
    → place l i ≡ some idx
    → (idx < l.size) ⊎ ((l.size ≡ 0) × (idx ≡ 0))
unfolding place
place_bounds l (pos n) idx e = ground arith
place_bounds l (negsuc n) idx e = ground arith

place-size : (l g : ArrayList) (i : ℤ) → g.size ≡ l.size → place g i ≡ place l i
unfolding place
place-size l g (pos n) e = ground arith
place-size l g (negsuc n) e = ground arith

module _ (malloc : Malloc) (sized : Sized malloc) (l : ArrayList) (i : ℤ) (x : ℕ) where
  -- The call put `x` at `at`, or failed for want of memory, which changes nothing.
  abbrev pub Added : ℕ → Option ℕ × ArrayList → Type 0
  Added at r =
      ((r.0 ≡ some at) × Holds (spliced at x (contents l)) r.1)
      ⊎ ((r.0 ≡ none) × (r.1 ≡ l) × (l.size ≡ l.capacity))

  module _ (v : IsValid l) (small : l.capacity < 2 ^ 58) (few : l.size < 2 ^ 31) where
    -- With an index that names a place, `muggle_array_list_insert` on a valid list of below 2^31
    -- entries and a capacity below 2^58 stays within the arrays; it puts the data there, the entries from that index on moving up by one, and returns
    -- the place, or it returns NULL on a full list, which is unchanged.
    pub insert-Added : (idx : ℕ) → place l i ≡ some idx → Yields (insert malloc l i x) (Added idx)
    unfolding insert
    insert-Added idx e =
        let ((ok, g), run, s) = make_room-Roomy malloc sized l v small in go ok g run s
      where
        go :
            (ok : Bool) (g : ArrayList)
            → make_room malloc l ≡ some (ok, g)
            → Roomy malloc sized l (ok, g)
            → Yields (insert malloc l i x) (Added idx)
        go false g run s =
            ((none, g), ground (arith, run), inr (refl, (s.refused refl).0, (s.refused refl).1))
        go true g run s =
            let here : place g i ≡ some idx = place-size l g i s.size ∙ e in
            let (r, filled, (found, (valid, same))) =
              insert_at-Holds g x idx s.valid (s.room refl)
                (omega (arith, place_bounds l i idx e, s.size)) (omega (arith, s.size)) in
            (r, ground (arith, run, here, filled), inl (found, (valid, rw (← s.same) same)))

    -- With an index that names a place, `muggle_array_list_append` on a valid list of below 2^31
    -- entries and a capacity below 2^58 puts the data behind that entry, or at the front of an empty list, and returns where; or it returns NULL on
    -- a full list, which is unchanged.
    pub append-Added :
        (idx : ℕ) → place l i ≡ some idx → Yields (append malloc l i x) (Added (after l idx))
    unfolding append
    append-Added idx e =
        let ((ok, g), run, s) = make_room-Roomy malloc sized l v small in go ok g run s
      where
        go :
            (ok : Bool) (g : ArrayList)
            → make_room malloc l ≡ some (ok, g)
            → Roomy malloc sized l (ok, g)
            → Yields (append malloc l i x) (Added (after l idx))
        go false g run s =
            ((none, g), ground (arith, run), inr (refl, (s.refused refl).0, (s.refused refl).1))
        go true g run s =
            let here : place g i ≡ some idx = place-size l g i s.size ∙ e in
            let at : after g idx ≡ after l idx = ground (arith, s.size) in
            let (r, filled, (found, (valid, same))) =
              append_at-Holds g x idx s.valid (s.room refl) (omega (arith, s.size))
                (omega (arith, place_bounds l i idx e, s.size)) in
            (
              r,
              ground (arith, run, here, filled),
              inl (found ∙ ap some at, (valid, rw (← s.same, ← at) same)),
            )

    -- With an index outside the list, `insert` and `append` return NULL and leave a valid list of
    -- the same contents.
    pub insert_outside :
        place l i ≡ none
        → Yields (insert malloc l i x) (λ r. (r.0 ≡ none) × Holds (contents l) r.1)
          × Yields (append malloc l i x) (λ r. (r.0 ≡ none) × Holds (contents l) r.1)
    unfolding insert append
    insert_outside e =
        let ((ok, g), run, s) = make_room-Roomy malloc sized l v small in
        let there : place g i ≡ none = place-size l g i s.size ∙ e in
        (
          ((none, g), ground (arith, run, there), (refl, (s.valid, s.same))),
          ((none, g), ground (arith, run, there), (refl, (s.valid, s.same))),
        )

-- `muggle_array_list_remove` at an index of a valid list of below 2^31 entries returns true, hands that entry to `free`
-- if there is one, and leaves a valid list without the entry; at any other index it returns false
-- and changes nothing.
pub remove_cuts :
    (func_free : Bool) (l : ArrayList) (i : ℤ)
    → IsValid l
    → l.size < 2 ^ 31
    → ((idx x : ℕ)
        → get_index l i ≡ some idx
        → get_elem? l.nodes idx ≡ some x
        → (g : ArrayList) × (remove func_free l i
            ≡ some (true, (if func_free then x ∷ [] else []), g))
          × Holds (cut idx (contents l)) g)
      × (get_index l i ≡ none → remove func_free l i ≡ some (false, [], l))
unfolding remove
remove_cuts func_free l i v few = (removes, λ e. rw (e, remove))
  where
    removes :
        (idx x : ℕ)
        → get_index l i ≡ some idx
        → get_elem? l.nodes idx ≡ some x
        → (g : ArrayList) × (remove func_free l i
            ≡ some (true, (if func_free then x ∷ [] else []), g))
          × Holds (cut idx (contents l)) g
    removes idx x e load =
        let inside : idx < l.size = get_index_bounds l i idx e in
        let n = l.size - (idx + 1) in
        let (m, run, s) = shift_left-ShiftedLeft n idx l.nodes (omega (arith, v.room, v.full)) in
        (
          record l { size = l.size - 1; nodes = m },
          rw (e, remove) (rw (load, rounds-small l.size (idx + 1) few, run)),
          (
            record {
              some_capacity = v.some_capacity;
              room = omega (arith, v.room, s.size);
              full = omega (arith, v.full);
            },
            list_ext (take (l.size - 1) m) (cut idx (contents l)) λ j. ground (
              arith,
              v.room,
              v.full,
              get_elem?-take (l.size - 1) m j,
              s.cells j,
              get_elem?-cut l.size idx l.nodes j,
            ),
          ),
        )
