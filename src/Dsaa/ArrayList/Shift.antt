-- ===== src/Dsaa/ArrayList/Shift.antt =====
-- The shifting loops of array_list.c, and lists with an entry put in or taken out.
use muggle_cc.Base.{
  ℕ, zero, suc, ◌+◌, ◌-◌, ◌≤◌, ◌<◌, ◌≡◌, refl, ◌∙◌, ◌&&◌, none, some, List, ◌∷◌, ◌++◌, length, take,
  drop, set, get_elem?, get_elem?-some, get_elem?-set, length-set, leb, ltb, ◌==◌, if◌then◌else◌,
  arith, Yields, get_elem?-take, get_elem?-drop, get_elem?-append, length-take, get_elem?-cons,
}
use muggle_cc.Dsaa.ArrayList.{shift_right, shift_left}

-- A list with one more entry.
abbrev pub spliced : ℕ → ℕ → List ℕ → List ℕ
spliced idx x xs = take idx xs ++ (x ∷ drop idx xs)

-- A list with one entry less.
abbrev pub cut : ℕ → List ℕ → List ℕ
cut idx xs = take idx xs ++ drop (suc idx) xs

pub record ShiftedRight (n idx : ℕ) (a m : List ℕ) : Type 0 where
  pub size : length m ≡ length a
  pub cells :
      (j : ℕ)
      → get_elem? m j
        ≡ (if ltb idx j && leb j (idx + n) then get_elem? a (j - 1) else get_elem? a j)

pub shift_right-ShiftedRight :
    (n idx : ℕ) (a : List ℕ)
    → idx + n < length a
    → Yields (shift_right n idx a) (ShiftedRight n idx a)
unfolding shift_right
shift_right-ShiftedRight zero idx a h = (a, refl, record { size = refl; cells = λ j. ground arith })
shift_right-ShiftedRight (suc n) idx a h =
    let (x, load) = get_elem?-some a (idx + n) (omega arith) in
    let b = set a (idx + n + 1) x in
    let size = length-set a (idx + n + 1) x in
    let (m, run, s) = shift_right-ShiftedRight n idx b (omega arith) in
    (
      m,
      ground (arith, load, run),
      record {
        size = s.size ∙ size;
        cells = λ j. ground (
          arith,
          load,
          s.cells j,
          get_elem?-set a (idx + n + 1) j x,
          get_elem?-set a (idx + n + 1) (j - 1) x,
        );
      },
    )

pub record ShiftedLeft (n i : ℕ) (a m : List ℕ) : Type 0 where
  pub size : length m ≡ length a
  pub cells :
      (j : ℕ)
      → get_elem? m j ≡ (if leb i j && ltb j (i + n) then get_elem? a (j + 1) else get_elem? a j)

pub shift_left-ShiftedLeft :
    (n i : ℕ) (a : List ℕ) → i + n < length a → Yields (shift_left n i a) (ShiftedLeft n i a)
unfolding shift_left
shift_left-ShiftedLeft zero i a h = (a, refl, record { size = refl; cells = λ j. ground arith })
shift_left-ShiftedLeft (suc n) i a h =
    let (x, load) = get_elem?-some a (i + 1) (omega arith) in
    let b = set a i x in
    let size = length-set a i x in
    let (m, run, s) = shift_left-ShiftedLeft n (i + 1) b (omega arith) in
    (
      m,
      ground (arith, load, run),
      record {
        size = s.size ∙ size;
        cells = λ j.
            ground (arith, load, s.cells j, get_elem?-set a i j x, get_elem?-set a i (j + 1) x);
      },
    )

-- The cells of a spliced and of a cut prefix.
pub get_elem?-spliced :
    (n idx x : ℕ) (a : List ℕ) (j : ℕ)
    → idx ≤ n
    → n ≤ length a
    → get_elem? (spliced idx x (take n a)) j ≡ (
        if ltb j idx
        then get_elem? a j
        else if j == idx
        then some x
        else if leb j n
        then get_elem? a (j - 1)
        else none)
get_elem?-spliced n idx x a j h k =
    let xs = take n a in
    ground (
      arith,
      get_elem?-append (take idx xs) (x ∷ drop idx xs) j,
      length-take idx xs,
      length-take n a,
      get_elem?-take idx xs j,
      get_elem?-take n a j,
      get_elem?-cons x (drop idx xs) (j - idx),
      get_elem?-drop idx xs (j - idx - 1),
      get_elem?-take n a (idx + (j - idx - 1)),
    )

pub get_elem?-cut :
    (n idx : ℕ) (a : List ℕ) (j : ℕ)
    → idx < n
    → n ≤ length a
    → get_elem? (cut idx (take n a)) j
      ≡ (if ltb j idx then get_elem? a j else if ltb (j + 1) n then get_elem? a (j + 1) else none)
get_elem?-cut n idx a j h k =
    let xs = take n a in
    ground (
      arith,
      get_elem?-append (take idx xs) (drop (suc idx) xs) j,
      length-take idx xs,
      length-take n a,
      get_elem?-take idx xs j,
      get_elem?-take n a j,
      get_elem?-drop (suc idx) xs (j - idx),
      get_elem?-take n a (suc idx + (j - idx)),
    )
