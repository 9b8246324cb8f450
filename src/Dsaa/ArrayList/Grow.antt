-- ===== src/Dsaa/ArrayList/Grow.antt =====
-- The valid array lists, the list that one holds, and `muggle_array_list_ensure_capacity`.
use muggle_cc.Base.{
  ℕ, ◌*◌, ◌%◌, ◌^◌, ◌≤◌, ◌<◌, ◌≡◌, refl, Bool, true, false, Option, none, some, List, [], length,
  take, ◌==◌, if◌then◌else◌, arith, Yields, inl, inr, le-or-gt,
}
use muggle_cc.Dsaa.Cells.{Malloc, Sized, cell_bytes, copy_loop-Copied, take-Copied}
use muggle_cc.Dsaa.ArrayList.{ArrayList, init, ensure_capacity, make_room}

pub record IsValid (l : ArrayList) : Type 0 where
  pub some_capacity : 0 < l.capacity
  pub room : l.capacity ≤ length l.nodes
  pub full : l.size ≤ l.capacity

abbrev pub contents : ArrayList → List ℕ
contents l = take l.size l.nodes

-- What `ensure_capacity` promises for `capacity`.
pub record Ensured (l : ArrayList) (capacity : ℕ) (r : Bool × ArrayList) : Type 0 where
  pub valid : IsValid r.1
  pub size : r.1.size ≡ l.size
  pub same : contents r.1 ≡ contents l
  pub large : r.0 ≡ true → capacity ≤ r.1.capacity
  pub refused : r.0 ≡ false → r.1 ≡ l

module _ (malloc : Malloc) (sized : Sized malloc) where
  unchanged :
      (l : ArrayList) (capacity : ℕ) (ok : Bool)
      → IsValid l
      → (ok ≡ true → capacity ≤ l.capacity)
      → Ensured l capacity (ok, l)
  unchanged l capacity ok v large = record {
    valid = v;
    size = refl;
    same = refl;
    large = large;
    refused = λ e. refl;
  }

  -- On a valid list and for a capacity below 2^59, `muggle_array_list_ensure_capacity` stays within
  -- the arrays and keeps the list valid with the same contents; it returns true only with the
  -- capacity asked for, and false only with the list unchanged.
  pub ensure_capacity-Ensured :
      (l : ArrayList) (capacity : ℕ)
      → IsValid l
      → capacity < 2 ^ 59
      → Yields (ensure_capacity malloc l capacity) (Ensured l capacity)
  unfolding ensure_capacity
  ensure_capacity-Ensured l capacity v small = elim (le-or-gt capacity l.capacity) [
    | inl enough ↦ ((true, l), ground arith, unchanged l capacity true v (λ e. enough))
    | inr more ↦ grow (malloc (cell_bytes capacity)) refl more
  ]
    where
      grow :
          (o : Option (List ℕ))
          → malloc (cell_bytes capacity) ≡ o
          → l.capacity < capacity
          → Yields (ensure_capacity malloc l capacity) (Ensured l capacity)
      grow none e more = ((false, l), ground (arith, e), unchanged l capacity false v (λ f. cc))
      grow (some fresh) e more =
          let room : capacity ≤ length fresh = omega (arith, sized (cell_bytes capacity) fresh e) in
          let (nodes, run, c) =
            copy_loop-Copied l.size 0 l.nodes fresh (omega (arith, v.full, v.room))
              (omega (arith, v.full)) in
          (
            (true, record l { capacity = capacity; nodes = nodes }),
            ground (arith, e, run),
            record {
              valid = record {
                some_capacity = omega arith;
                room = omega (arith, c.size);
                full = omega (arith, v.full);
              };
              size = refl;
              same = take-Copied l.size l.nodes fresh nodes c;
              large = λ f. omega arith;
              refused = λ f. cc;
            },
          )

  -- What an insertion starts from: a valid list of the same contents, with room if it is to go on.
  pub record Roomy (l : ArrayList) (r : Bool × ArrayList) : Type 0 where
    pub valid : IsValid r.1
    pub size : r.1.size ≡ l.size
    pub same : contents r.1 ≡ contents l
    pub room : r.0 ≡ true → r.1.size < r.1.capacity
    pub refused : r.0 ≡ false → (r.1 ≡ l) × (l.size ≡ l.capacity)

  pub make_room-Roomy :
      (l : ArrayList) → IsValid l → l.capacity < 2 ^ 58 → Yields (make_room malloc l) (Roomy l)
  unfolding make_room
  make_room-Roomy l v small =
      let capacity = l.capacity * 2 % 2 ^ 64 in
      let (r, run, s) = ensure_capacity-Ensured l capacity v (omega arith) in
      elim (le-or-gt l.capacity l.size) [
        | inr room ↦ (
          (true, l),
          ground arith,
          record { valid = v; size = refl; same = refl; room = λ e. room; refused = λ e. cc },
        )
        | inl full ↦ (
          r,
          ground (arith, run, v.full),
          record {
            valid = s.valid;
            size = s.size;
            same = s.same;
            room = λ e. omega (arith, s.large e, s.size, v.full, v.some_capacity);
            refused = λ e. (s.refused e, omega (arith, v.full));
          },
        )
      ]

  -- `muggle_array_list_init` with a capacity below 2^59 gives a valid empty list of that capacity,
  -- or of capacity 8 where 0 is asked for.
  pub init-IsValid :
      (capacity : ℕ) {l : ArrayList}
      → capacity < 2 ^ 59
      → init malloc capacity ≡ some l
      → IsValid l × (contents l ≡ []) × (l.capacity ≡ (if capacity == 0 then 8 else capacity))
  unfolding init
  init-IsValid capacity {l} small e =
      go (malloc (cell_bytes (if capacity == 0 then 8 else capacity))) refl
    where
      go :
          (o : Option (List ℕ))
          → malloc (cell_bytes (if capacity == 0 then 8 else capacity)) ≡ o
          → IsValid l × (contents l ≡ []) × (l.capacity ≡ (if capacity == 0 then 8 else capacity))
      go none f = ground (arith, f)
      go (some m) f = (
        record {
          some_capacity = ground (arith, f);
          room = ground (arith, f, sized (cell_bytes (if capacity == 0 then 8 else capacity)) m f);
          full = ground (arith, f);
        },
        ground (arith, f),
        ground (arith, f),
      )
