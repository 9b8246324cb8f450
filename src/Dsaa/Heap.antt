-- ===== src/Dsaa/Heap.antt =====
-- muggle/c/dsaa/heap.c: a binary min-heap of key and value pointers, its root at index 1.
-- `none` is a fault, an access outside the nodes, or fuel that ran out. What the `free` functions
-- of the client are called with, in order, is a list in the result.
pub mod Order
pub mod Grow
pub mod Insert
pub mod Sink
pub mod Extract
pub mod Refill
pub mod Remove
pub mod Find
mod Tests
use muggle_cc.Base.{
  ℕ, zero, suc, ◌+◌, ◌-◌, ◌*◌, ◌/◌, ◌%◌, ◌^◌, Bool, true, false, not, ◌&&◌, Option, none, some,
  List, [], ◌∷◌, ◌++◌, ltb, leb, ◌==◌, if◌then◌else◌, ◌>>=◌, get_elem?, store,
}
use muggle_cc.Dsaa.Utils.{Cmp, is_lt, is_gt, is_eq, cap_is_valid}

pub record Node : Type 0 where
  pub key : ℕ
  pub value : ℕ

-- `cmp` is the same for all of a heap's life: the operations take it as a parameter.
pub record Heap : Type 0 where
  pub capacity : ℕ
  pub size : ℕ
  pub nodes : List Node

abbrev pub Malloc : Type 0
Malloc = ℕ → Option (List Node)

-- `sizeof(muggle_heap_node_t) * (capacity + 1)` in `size_t`
abbrev pub node_bytes : ℕ → ℕ
node_bytes capacity = 16 * ((capacity + 1) % 2 ^ 64) % 2 ^ 64

unfoldable pub init : Malloc → Option Cmp → ℕ → Option Heap
unfolding cap_is_valid
init malloc none capacity = none
init malloc (some cmp) capacity =
    let capacity' = if capacity == 0 then 8 else capacity in
    if not (cap_is_valid capacity') then none else do
      nodes ← malloc (node_bytes capacity')
      some (record { capacity = capacity'; size = 0; nodes = nodes })

unfoldable pub is_empty : Heap → Bool
is_empty h = h.size == 0

-- The keys and values of the nodes from `i` on, `n` of them, are handed to `free` and set to NULL.
unfoldable pub clear_loop : Bool → Bool → ℕ → ℕ → List Node → Option (List ℕ × List Node)
clear_loop free_key free_value zero i nodes = some ([], nodes)
clear_loop free_key free_value (suc n) i nodes = do
  node ← get_elem? nodes i
  let freed_key = if free_key && not (node.key == 0) then node.key ∷ [] else []
  let freed_value = if free_value && not (node.value == 0) then node.value ∷ [] else []
  nodes' ← store nodes i (record { key = 0; value = 0 })
  (freed, cleared) ← clear_loop free_key free_value n (suc i) nodes'
  some (freed_key ++ (freed_value ++ freed), cleared)

unfoldable pub clear : Bool → Bool → Heap → Option (List ℕ × Heap)
unfolding clear_loop
clear free_key free_value h = do
  (freed, nodes) ← clear_loop free_key free_value h.size 1 h.nodes
  some (freed, record h { size = 0; nodes = nodes })

-- The freed array is the empty list.
unfoldable pub destroy : Bool → Bool → Heap → Option (List ℕ × Heap)
unfolding clear
destroy free_key free_value h = do
  (freed, cleared) ← clear free_key free_value h
  some (freed, record cleared { nodes = [] })

-- The loop of `ensure_capacity`, from round `i` on, with `n` rounds to go.
unfoldable pub copy_loop : ℕ → ℕ → List Node → List Node → Option (List Node)
copy_loop zero i nodes new_nodes = some new_nodes
copy_loop (suc n) i nodes new_nodes = do
  node ← get_elem? nodes (suc i)
  new_nodes' ← store new_nodes (suc i) node
  copy_loop n (suc i) nodes new_nodes'

unfoldable pub ensure_capacity : Malloc → Heap → ℕ → Option (Bool × Heap)
unfolding copy_loop cap_is_valid
ensure_capacity malloc h capacity =
    let copied = λ (fresh : List Node). copy_loop h.size 0 h.nodes fresh >>= λ nodes.
    some (true, record h { capacity = capacity; nodes = nodes }) in
    let grown : Option (Bool × Heap) = elim (malloc (node_bytes capacity)) [
      | none ↦ some (false, h)
      | some fresh ↦ copied fresh
    ] in
    if leb capacity h.capacity
    then some (true, h)
    else if not (cap_is_valid capacity)
    then some (false, h)
    else grown

module _ (cmp : Cmp) where
  -- The loop of `insert`: the hole at `idx` rises while its parent's key is greater than `key`.
  unfoldable pub rise_loop : ℕ → List Node → ℕ → ℕ → Option (List Node × ℕ)
  rise_loop zero nodes idx key = none
  rise_loop (suc fuel) nodes idx key =
      let parent_idx = idx / 2 in
      let step : Option (List Node × ℕ) = do
        parent ← get_elem? nodes parent_idx
        let rise : Option (List Node × ℕ) = do
          nodes' ← store nodes idx parent
          rise_loop fuel nodes' parent_idx key
        if not (is_gt (cmp parent.key key)) then some (nodes, idx) else rise
      in if parent_idx == 0 then some (nodes, idx) else step

  unfoldable pub insert : Malloc → Heap → ℕ → ℕ → Option (Bool × Heap)
  unfolding ensure_capacity rise_loop store
  insert malloc h key value =
      let place = λ (g : Heap). rise_loop (suc (suc g.size)) g.nodes (suc g.size) key >>= λ hole.
      store hole.0 hole.1 (record { key = key; value = value }) >>= λ nodes.
      some (true, record g { size = suc g.size; nodes = nodes }) in
      if h.capacity == h.size
      then ensure_capacity malloc h (h.capacity * 2 % 2 ^ 64)
        >>= (λ grown. if grown.0 then place grown.1 else some (false, grown.1))
      else place h

  -- The index of the smaller child; `more` tells whether the right one is compared.
  unfoldable pub smaller_child : Bool → List Node → ℕ → Option ℕ
  smaller_child more nodes child =
      let compare_right : Option ℕ = do
        right ← get_elem? nodes (child + 1)
        left ← get_elem? nodes child
        some (if is_lt (cmp right.key left.key) then child + 1 else child)
      in if more then compare_right else some child

  -- The loop of `extract`: the hole at `i` sinks while the node at `last` is not smaller than the
  -- smaller child.
  unfoldable pub sink_loop : ℕ → List Node → ℕ → ℕ → ℕ → Option (List Node × ℕ)
  unfolding smaller_child
  sink_loop zero nodes size last i = none
  sink_loop (suc fuel) nodes size last i =
      let step : Option (List Node × ℕ) = do
        child ← smaller_child (not (i * 2 == size)) nodes (i * 2)
        last_node ← get_elem? nodes last
        child_node ← get_elem? nodes child
        let sink : Option (List Node × ℕ) = do
          nodes' ← store nodes i child_node
          sink_loop fuel nodes' size last child
        if is_lt (cmp last_node.key child_node.key) then some (nodes, i) else sink
      in if leb (i * 2) size then step else some (nodes, i)

  -- `some none` is a call that returns false.
  unfoldable pub extract : Heap → Option (Option Node × Heap)
  unfolding is_empty store
  extract h =
      let size = h.size - 1 in
      let take_root : Option (Option Node × Heap) = do
        root ← get_elem? h.nodes 1
        hole ← sink_loop (suc size) h.nodes size h.size 1
        last_node ← get_elem? hole.0 h.size
        nodes ← store hole.0 hole.1 last_node
        some (some root, record h { size = size; nodes = nodes })
      in if is_empty h then some (none, h) else take_root

  -- The index of the first node from `i` on, among `n`, whose key equals `key`.
  unfoldable pub find_loop : ℕ → ℕ → List Node → ℕ → Option (Option ℕ)
  find_loop zero i nodes key = some none
  find_loop (suc n) i nodes key =
      let later = find_loop n (suc i) nodes key in
      get_elem? nodes i >>= (λ node. if is_eq (cmp node.key key) then some (some i) else later)

  unfoldable pub find : Heap → ℕ → Option (Option ℕ)
  unfolding find_loop
  find h key = find_loop h.size 1 h.nodes key

  -- The loop of `remove`: the hole at `idx` moves up while the node at `last` is smaller than the
  -- parent, and down while it is not smaller than the smaller child.
  unfoldable pub refill_loop : ℕ → List Node → ℕ → ℕ → ℕ → Option (List Node × ℕ)
  unfolding smaller_child
  refill_loop zero nodes size last idx = none
  refill_loop (suc fuel) nodes size last idx =
      let sift : Option (List Node × ℕ) = do
        child ← smaller_child (ltb (idx * 2) size) nodes (idx * 2)
        last_node ← get_elem? nodes last
        child_node ← get_elem? nodes child
        let sink : Option (List Node × ℕ) = do
          nodes' ← store nodes idx child_node
          refill_loop fuel nodes' size last child
        if is_lt (cmp last_node.key child_node.key) then some (nodes, idx) else sink
      in let percolate = if leb (idx * 2) size then sift else some (nodes, idx) in
        let step : Option (List Node × ℕ) = do
          last_node ← get_elem? nodes last
          parent ← get_elem? nodes (idx / 2)
          let rise : Option (List Node × ℕ) = do
            nodes' ← store nodes idx parent
            refill_loop fuel nodes' size last (idx / 2)
          if is_lt (cmp last_node.key parent.key) then rise else percolate
        in if idx / 2 == 0 then percolate else step

  -- The node is given by its index in the array. The freed pointers come first.
  unfoldable pub remove : Bool → Bool → Heap → ℕ → Option (Bool × List ℕ × Heap)
  unfolding is_empty store
  remove free_key free_value h tmp =
      let size = h.size - 1 in
      let drop_node : Option (Bool × List ℕ × Heap) = do
        node ← get_elem? h.nodes tmp
        let freed_key = if free_key && not (node.key == 0) then node.key ∷ [] else []
        let freed_value = if free_value && not (node.value == 0) then node.value ∷ [] else []
        cleared ← store h.nodes tmp (record { key = 0; value = 0 })
        hole ← refill_loop (suc h.size) cleared size h.size tmp
        last_node ← get_elem? hole.0 h.size
        nodes ← store hole.0 hole.1 last_node
        some (true, freed_key ++ freed_value, record h { size = size; nodes = nodes })
      in if is_empty h
        then some (false, [], h)
        else if leb tmp 0
        then some (false, [], h)
        else if ltb h.size tmp
        then some (false, [], h)
        else drop_node
