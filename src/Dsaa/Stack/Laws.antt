-- ===== src/Dsaa/Stack/Laws.antt =====
-- stack.c against a list whose last entry is the top.
use muggle_cc.Base.{
  ℕ, zero, suc, ◌-◌, ◌*◌, ◌%◌, ◌^◌, ◌≤◌, ◌<◌, ◌≡◌, refl, ap, ◌∙◌, Bool, true, false, Option, none,
  some, List, [], ◌∷◌, ◌++◌, length, take, ◌==◌, if◌then◌else◌, arith, Yields, inl, inr, ◌⊎◌,
  le-or-gt, set, slice, get_elem?, get_elem?-some, get_elem?-set, get_elem?-take, get_elem?-append,
  get_elem?-cons, length-take, length-set, list_ext, store-eq,
}
use muggle_cc.Dsaa.Cells.{
  Malloc, Sized, cell_bytes, copy_loop-Copied, take-Copied, non_null, free_loop_frees,
}
use muggle_cc.Dsaa.Stack.{Stack, init, clear, ensure_capacity, push, top, pop}

pub record IsValid (s : Stack) : Type 0 where
  pub some_capacity : 0 < s.capacity
  pub room : s.capacity ≤ length s.nodes
  pub full : s.top ≤ s.capacity

-- The entries from the bottom up.
abbrev pub contents : Stack → List ℕ
contents s = take s.top s.nodes

abbrev pub Holds : List ℕ → Stack → Type 0
Holds xs s = IsValid s × (contents s ≡ xs)

pub record Ensured (s : Stack) (capacity : ℕ) (r : Bool × Stack) : Type 0 where
  pub valid : IsValid r.1
  pub size : r.1.top ≡ s.top
  pub same : contents r.1 ≡ contents s
  pub large : r.0 ≡ true → capacity ≤ r.1.capacity
  pub refused : r.0 ≡ false → r.1 ≡ s

module _ (malloc : Malloc) (sized : Sized malloc) (s : Stack) (v : IsValid s) where
  unchanged :
      (capacity : ℕ) (ok : Bool) → (ok ≡ true → capacity ≤ s.capacity) → Ensured s capacity (ok, s)
  unchanged capacity ok large = record {
    valid = v;
    size = refl;
    same = refl;
    large = large;
    refused = λ e. refl;
  }

  -- On a valid stack and for a capacity below 2^59, `muggle_stack_ensure_capacity` stays within the
  -- arrays and keeps the stack valid with the same contents; it returns true only with the
  -- capacity asked for, and false only with the stack unchanged.
  pub ensure_capacity_keeps :
      (capacity : ℕ)
      → capacity < 2 ^ 59
      → Yields (ensure_capacity malloc s capacity) (Ensured s capacity)
  unfolding ensure_capacity
  ensure_capacity_keeps capacity small = elim (le-or-gt capacity s.capacity) [
    | inl enough ↦ ((true, s), ground arith, unchanged capacity true (λ e. enough))
    | inr more ↦ grow (malloc (cell_bytes capacity)) refl more
  ]
    where
      grow :
          (o : Option (List ℕ))
          → malloc (cell_bytes capacity) ≡ o
          → s.capacity < capacity
          → Yields (ensure_capacity malloc s capacity) (Ensured s capacity)
      grow none e more = ((false, s), ground (arith, e), unchanged capacity false (λ f. cc))
      grow (some fresh) e more =
          let room : capacity ≤ length fresh = omega (arith, sized (cell_bytes capacity) fresh e) in
          let (nodes, run, c) =
            copy_loop-Copied s.top 0 s.nodes fresh (omega (arith, v.full, v.room))
              (omega (arith, v.full)) in
          (
            (true, record s { capacity = capacity; nodes = nodes }),
            ground (arith, e, run),
            record {
              valid = record {
                some_capacity = omega arith;
                room = omega (arith, c.size);
                full = omega (arith, v.full);
              };
              size = refl;
              same = take-Copied s.top s.nodes fresh nodes c;
              large = λ f. omega arith;
              refused = λ f. cc;
            },
          )

-- One entry more at the end of a prefix.
take-set : (n x : ℕ) (a : List ℕ) → n < length a → take (suc n) (set a n x) ≡ take n a ++ (x ∷ [])
take-set n x a h = list_ext (take (suc n) (set a n x)) (take n a ++ (x ∷ [])) λ j. ground (
  arith,
  get_elem?-take (suc n) (set a n x) j,
  get_elem?-set a n j x,
  get_elem?-append (take n a) (x ∷ []) j,
  get_elem?-take n a j,
  length-take n a,
  get_elem?-cons x [] (j - n),
)

take-suc : (n x : ℕ) (a : List ℕ) → get_elem? a n ≡ some x → take (suc n) a ≡ take n a ++ (x ∷ [])
take-suc zero x [] e = cc
take-suc (suc n) x [] e = cc
take-suc zero x (y ∷ a) e = cc
take-suc (suc n) x (y ∷ a) e = ap (◌∷◌ y) (take-suc n x a e)

module _ (malloc : Malloc) (sized : Sized malloc) (x : ℕ) where
  -- The data is on top, at the returned node; or the stack was full and is unchanged.
  abbrev pub Pushed : Stack → Option ℕ × Stack → Type 0
  Pushed s r =
      ((r.0 ≡ some s.top) × Holds (contents s ++ (x ∷ [])) r.1)
      ⊎ ((r.0 ≡ none) × (r.1 ≡ s) × (s.top ≡ s.capacity))

  push_room :
      (s : Stack)
      → IsValid s
      → s.top < s.capacity
      → push malloc s x
          ≡ some (some s.top, record s { top = suc s.top; nodes = set s.nodes s.top x })
        × Holds (contents s ++ (x ∷ [])) (record s { top = suc s.top; nodes = set s.nodes s.top x })
  unfolding push
  push_room s v room = (
    ground (arith, store-eq s.nodes s.top x, v.room),
    (
      record {
        some_capacity = v.some_capacity;
        room = omega (arith, v.room, length-set s.nodes s.top x);
        full = omega arith;
      },
      take-set s.top x s.nodes (omega (arith, v.room)),
    ),
  )

  push-grown :
      (s g : Stack)
      → s.top ≡ s.capacity
      → ensure_capacity malloc s (s.capacity * 2 % 2 ^ 64) ≡ some (true, g)
      → g.top < g.capacity
      → push malloc s x ≡ push malloc g x
  unfolding push
  push-grown s g full e room = ground (arith, e)

  push-refused :
      (s g : Stack)
      → s.top ≡ s.capacity
      → ensure_capacity malloc s (s.capacity * 2 % 2 ^ 64) ≡ some (false, g)
      → push malloc s x ≡ some (none, g)
  unfolding push
  push-refused s g full e = ground (arith, e)

  -- `muggle_stack_push` on a valid stack of capacity below 2^58 stays within the arrays; it leaves
  -- a valid stack with the data on top of the old entries, or returns NULL on a full stack, which
  -- is unchanged.
  pub push-Pushed :
      (s : Stack) → IsValid s → s.capacity < 2 ^ 58 → Yields (push malloc s x) (Pushed s)
  push-Pushed s v small = elim (le-or-gt s.capacity s.top) [
    | inr room ↦
        let (run, holds) = push_room s v room in
        (
          (some s.top, record s { top = suc s.top; nodes = set s.nodes s.top x }),
          run,
          inl (refl, holds),
        )
    | inl full ↦
        let capacity = s.capacity * 2 % 2 ^ 64 in
        let ((ok, g), run, ensured) =
          ensure_capacity_keeps malloc sized s v capacity (omega arith) in
        grow ok g (omega (arith, v.full)) run ensured
  ]
    where
      grow :
          (ok : Bool) (g : Stack)
          → s.top ≡ s.capacity
          → ensure_capacity malloc s (s.capacity * 2 % 2 ^ 64) ≡ some (ok, g)
          → Ensured s (s.capacity * 2 % 2 ^ 64) (ok, g)
          → Yields (push malloc s x) (Pushed s)
      grow false g full e ensured =
          ((none, g), push-refused s g full e, inr (refl, ensured.refused refl, full))
      grow true g full e ensured =
          let large = ensured.large refl in
          let room : g.top < g.capacity = omega (arith, ensured.size, v.some_capacity) in
          let (run, (valid, same)) = push_room g ensured.valid room in
          (
            (some g.top, record g { top = suc g.top; nodes = set g.nodes g.top x }),
            push-grown s g full e room ∙ run,
            inl (ap some ensured.size, (valid, same ∙ ap (λ ys. ys ++ (x ∷ [])) ensured.same)),
          )

-- On a valid stack with entries, `muggle_stack_top` gives the last entry and where it is, and
-- `muggle_stack_pop` frees it, if there is a function to and it is not NULL, and leaves a valid
-- stack of the entries below it. On an empty stack `top` gives NULL and `pop` does nothing.
pub pop_takes :
    (func_free : Bool) (s : Stack)
    → IsValid s
    → (0 < s.top
        → (x : ℕ) × (g : Stack) × (contents s ≡ contents g ++ (x ∷ []))
          × (top s ≡ some (some (s.top - 1, x)))
          × (pop func_free s ≡ some (if func_free then non_null (x ∷ []) else [], g))
          × IsValid g)
      × (s.top ≡ 0 → (top s ≡ some none) × (pop func_free s ≡ some ([], s)))
unfolding top pop
pop_takes func_free s v = (pops, λ e. (ground arith, ground arith))
  where
    pops :
        0 < s.top
        → (x : ℕ) × (g : Stack) × (contents s ≡ contents g ++ (x ∷ []))
          × (top s ≡ some (some (s.top - 1, x)))
          × (pop func_free s ≡ some (if func_free then non_null (x ∷ []) else [], g))
          × IsValid g
    pops h =
        let n = s.top - 1 in
        let (x, load) = get_elem?-some s.nodes n (omega (arith, v.room, v.full)) in
        let size : s.top ≡ suc n = omega arith in
        (
          x,
          record s { top = n },
          ap (λ k. take k s.nodes) size ∙ take-suc n x s.nodes load,
          ground (arith, load),
          ground (arith, load),
          record { some_capacity = v.some_capacity; room = v.room; full = omega (arith, v.full) },
        )

-- `muggle_stack_clear` of a valid stack hands the data that are not NULL to `free`, each once and
-- from the bottom up, if there is such a function, and leaves a valid empty stack.
pub clear-Holds :
    (func_free : Bool) (s : Stack)
    → IsValid s
    → Yields
        (clear func_free s)
        (λ r. (r.0 ≡ (if func_free then non_null (contents s) else [])) × Holds [] r.1)
unfolding clear
clear-Holds true s v = (
  (non_null (contents s), record s { top = 0 }),
  unfold slice in rw (free_loop_frees s.top 0 s.nodes (omega (arith, v.room, v.full))),
  (refl, (record { some_capacity = v.some_capacity; room = v.room; full = omega arith }, refl)),
)
clear-Holds false s v = (
  ([], record s { top = 0 }),
  refl,
  (refl, (record { some_capacity = v.some_capacity; room = v.room; full = omega arith }, refl)),
)

-- `muggle_stack_init` with a capacity below 2^59 gives a valid empty stack of that capacity, or of
-- capacity 8 where 0 is asked for.
pub init-Holds :
    (malloc : Malloc)
    → Sized malloc
    → (capacity : ℕ) {s : Stack} → capacity < 2 ^ 59
    → init malloc capacity ≡ some s
    → Holds [] s × (s.capacity ≡ (if capacity == 0 then 8 else capacity))
unfolding init
init-Holds malloc sized capacity {s} small e =
    go (malloc (cell_bytes (if capacity == 0 then 8 else capacity))) refl
  where
    go :
        (o : Option (List ℕ))
        → malloc (cell_bytes (if capacity == 0 then 8 else capacity)) ≡ o
        → Holds [] s × (s.capacity ≡ (if capacity == 0 then 8 else capacity))
    go none f = ground (arith, f)
    go (some m) f = (
      (
        record {
          some_capacity = ground (arith, f);
          room = ground (arith, f, sized (cell_bytes (if capacity == 0 then 8 else capacity)) m f);
          full = ground (arith, f);
        },
        ground (arith, f),
      ),
      ground (arith, f),
    )
