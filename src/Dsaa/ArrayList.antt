-- ===== src/Dsaa/ArrayList.antt =====
-- muggle/c/dsaa/array_list.c: a growing array of pointers with indices from both ends.
-- Sizes are `uint64_t`; the source's casts of them to `int` are written out.
-- `none` outside is a fault; a node pointer is its index, NULL is `none` inside.
pub mod Casts
pub mod Find
pub mod Grow
pub mod Shift
pub mod Edit
pub mod Overlong
mod Tests
use muggle_cc.Base.{
  ℤ, pos, negsuc, ℕ, zero, suc, ◌+◌, ◌-◌, ◌*◌, ◌%◌, ◌^◌, Bool, true, false, not, ◌&&◌, ◌||◌, Option,
  none, some, List, [], ◌∷◌, ltb, leb, ◌==◌, if◌then◌else◌, ◌>>=◌, get_elem?, store,
}
use muggle_cc.Dsaa.Utils.{Cmp, is_eq, cap_is_valid}
use muggle_cc.Dsaa.Cells.{Malloc, cell_bytes, copy_loop, free_loop}

pub record ArrayList : Type 0 where
  pub capacity : ℕ
  pub size : ℕ
  pub nodes : List ℕ

-- `(int)n` of an unsigned number.
unfoldable pub to_int : ℕ → ℤ
to_int n = if ltb (n % 2 ^ 32) (2 ^ 31) then pos (n % 2 ^ 32) else negsuc (2 ^ 32 - 1 - n % 2 ^ 32)

-- An index for the callers, who take every negative one for a failure: that is `none`.
unfoldable pub non_negative : ℤ → Option ℕ
non_negative (pos n) = some n
non_negative (negsuc n) = none

-- The index is an `int` above INT_MIN, which has no negation.
unfoldable pub get_index : ArrayList → ℤ → Option ℕ
unfolding to_int non_negative
get_index l (pos n) = if leb l.size n then none else some n
get_index l (negsuc n) =
    if ltb l.size (n + 1) then none else non_negative (to_int (l.size - (n + 1)))

unfoldable pub init : Malloc → ℕ → Option ArrayList
unfolding cap_is_valid
init malloc capacity =
    let capacity' = if capacity == 0 then 8 else capacity in
    if not (cap_is_valid capacity') then none else do
      nodes ← malloc (cell_bytes capacity')
      some (record { capacity = capacity'; size = 0; nodes = nodes })

unfoldable pub is_empty : ArrayList → Bool
is_empty l = l.size == 0

unfoldable pub clear : Bool → ArrayList → Option (List ℕ × ArrayList)
unfolding free_loop
clear func_free l = do
  freed ← if func_free then free_loop l.size 0 l.nodes else some []
  some (freed, record l { size = 0 })

-- The freed array is the empty list.
unfoldable pub destroy : Bool → ArrayList → Option (List ℕ × ArrayList)
unfolding clear
destroy func_free l = do
  (freed, cleared) ← clear func_free l
  some (freed, record cleared { nodes = [] })

unfoldable pub ensure_capacity : Malloc → ArrayList → ℕ → Option (Bool × ArrayList)
unfolding copy_loop cap_is_valid
ensure_capacity malloc l capacity =
    let copied = λ (fresh : List ℕ). copy_loop l.size 0 l.nodes fresh >>= λ nodes.
    some (true, record l { capacity = capacity; nodes = nodes }) in
    let grown : Option (Bool × ArrayList) = elim (malloc (cell_bytes capacity)) [
      | none ↦ some (false, l)
      | some fresh ↦ copied fresh
    ] in
    if leb capacity l.capacity
    then some (true, l)
    else if not (cap_is_valid capacity)
    then some (false, l)
    else grown

unfoldable pub index : ArrayList → ℤ → Option ℕ
unfolding get_index
index l i = get_index l i

module _ (cmp : Cmp) where
  -- -1 is `negsuc 0`.
  unfoldable pub find_loop : ℕ → ℕ → List ℕ → ℕ → Option ℤ
  unfolding to_int
  find_loop zero i nodes key = some (negsuc 0)
  find_loop (suc n) i nodes key =
      let later = find_loop n (suc i) nodes key in
      get_elem? nodes i >>= (λ data'. if is_eq (cmp data' key) then some (to_int i) else later)

  unfoldable pub find : ArrayList → ℤ → ℕ → Option ℤ
  find l i key = elim (get_index l i) [
    | none ↦ some (negsuc 0)
    | some start ↦ find_loop (l.size - start) start l.nodes key
  ]

-- How many `int`s from `start` on are at most `(int)size - 1`; the subtraction overflows, a fault,
-- where `(int)size` is INT_MIN.
unfoldable pub rounds : ℕ → ℕ → Option ℕ
unfolding to_int
rounds size start = elim (to_int size) [
  | pos s ↦ some (s - start)
  | negsuc n ↦ if n == 2 ^ 31 - 1 then none else some 0
]

-- The rounds of `for (int i = (int)size - 1; i >= idx; i--) nodes[i + 1] = nodes[i]`.
unfoldable pub shift_right : ℕ → ℕ → List ℕ → Option (List ℕ)
unfolding store
shift_right zero idx nodes = some nodes
shift_right (suc n) idx nodes = do
  data' ← get_elem? nodes (idx + n)
  nodes' ← store nodes (idx + n + 1) data'
  shift_right n idx nodes'

-- The rounds of `for (int i = index; i < (int)size - 1; i++) nodes[i] = nodes[i + 1]`.
unfoldable pub shift_left : ℕ → ℕ → List ℕ → Option (List ℕ)
unfolding store
shift_left zero i nodes = some nodes
shift_left (suc n) i nodes = do
  data' ← get_elem? nodes (i + 1)
  nodes' ← store nodes i data'
  shift_left n (i + 1) nodes'

unfoldable pub is_end : ℤ → Bool
is_end (pos n) = n == 0
is_end (negsuc n) = n == 0

-- The index of an insertion: an empty list takes 0 and -1.
unfoldable pub place : ArrayList → ℤ → Option ℕ
unfolding get_index is_end
place l i = elim (get_index l i) [
  | some idx ↦ some idx
  | none ↦ if is_end i && l.size == 0 then some 0 else none
]

unfoldable pub make_room : Malloc → ArrayList → Option (Bool × ArrayList)
unfolding ensure_capacity
make_room malloc l =
    if l.size == l.capacity
    then ensure_capacity malloc l (l.capacity * 2 % 2 ^ 64)
    else some (true, l)

unfoldable pub insert_at : ArrayList → ℕ → ℕ → Option (Option ℕ × ArrayList)
unfolding rounds shift_right store
insert_at l idx data' = do
  n ← rounds l.size idx
  shifted ← shift_right n idx l.nodes
  nodes ← store shifted idx data'
  some (some idx, record l { size = suc l.size; nodes = nodes })

unfoldable pub insert : Malloc → ArrayList → ℤ → ℕ → Option (Option ℕ × ArrayList)
insert malloc l i data' = do
  (room, g) ← make_room malloc l
  let placed : Option (Option ℕ × ArrayList) = elim (place g i) [
    | none ↦ some (none, g)
    | some idx ↦ insert_at g idx data'
  ]
  if room then placed else some (none, g)

-- The loop shifts the nodes after `idx`, down to `i > idx`.
unfoldable pub append_at : ArrayList → ℕ → ℕ → Option (Option ℕ × ArrayList)
unfolding rounds shift_right store
append_at l idx data' =
    let at = if l.size == 0 then 0 else idx + 1 in
    rounds l.size (idx + 1) >>= λ n. shift_right n (idx + 1) l.nodes >>= λ shifted.
    store shifted at data' >>= λ nodes.
    some (some at, record l { size = suc l.size; nodes = nodes })

unfoldable pub append : Malloc → ArrayList → ℤ → ℕ → Option (Option ℕ × ArrayList)
append malloc l i data' = do
  (room, g) ← make_room malloc l
  let placed : Option (Option ℕ × ArrayList) = elim (place g i) [
    | none ↦ some (none, g)
    | some idx ↦ append_at g idx data'
  ]
  if room then placed else some (none, g)

-- `free` is called with the data even if it is NULL.
unfoldable pub remove : Bool → ArrayList → ℤ → Option (Bool × List ℕ × ArrayList)
remove func_free l i = elim (get_index l i) [
  | none ↦ some (false, [], l)
  | some idx ↦ get_elem? l.nodes idx >>= λ data'. rounds l.size (idx + 1) >>= λ n.
      shift_left n idx l.nodes >>= λ nodes.
      some (
        true,
        (if func_free then data' ∷ [] else []),
        record l { size = l.size - 1; nodes = nodes },
      )
]
