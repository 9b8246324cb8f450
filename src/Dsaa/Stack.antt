-- ===== src/Dsaa/Stack.antt =====
-- muggle/c/dsaa/stack.c: a growing stack of pointers. `none` outside is a fault; a node pointer is
-- its index, NULL is `none` inside.
pub mod Laws
mod Tests
use muggle_cc.Base.{
  ℕ, zero, suc, ◌-◌, ◌*◌, ◌%◌, ◌^◌, Bool, true, false, not, ◌&&◌, Option, none, some, List, [], ◌∷◌,
  leb, ◌==◌, if◌then◌else◌, ◌>>=◌, get_elem?, store,
}
use muggle_cc.Dsaa.Utils.{cap_is_valid}
use muggle_cc.Dsaa.Cells.{Malloc, cell_bytes, copy_loop, free_loop}

pub record Stack : Type 0 where
  pub capacity : ℕ
  pub top : ℕ
  pub nodes : List ℕ

unfoldable pub init : Malloc → ℕ → Option Stack
unfolding cap_is_valid
init malloc capacity =
    let capacity' = if capacity == 0 then 8 else capacity in
    if not (cap_is_valid capacity') then none else do
      nodes ← malloc (cell_bytes capacity')
      some (record { capacity = capacity'; top = 0; nodes = nodes })

unfoldable pub is_empty : Stack → Bool
is_empty s = s.top == 0

unfoldable pub clear : Bool → Stack → Option (List ℕ × Stack)
unfolding free_loop
clear func_free s = do
  freed ← if func_free then free_loop s.top 0 s.nodes else some []
  some (freed, record s { top = 0 })

-- The freed array is the empty list.
unfoldable pub destroy : Bool → Stack → Option (List ℕ × Stack)
unfolding clear
destroy func_free s = do
  (freed, cleared) ← clear func_free s
  some (freed, record cleared { nodes = [] })

unfoldable pub ensure_capacity : Malloc → Stack → ℕ → Option (Bool × Stack)
unfolding copy_loop cap_is_valid
ensure_capacity malloc s capacity =
    let copied = λ (fresh : List ℕ). copy_loop s.top 0 s.nodes fresh >>= λ nodes.
    some (true, record s { capacity = capacity; nodes = nodes }) in
    let grown : Option (Bool × Stack) = elim (malloc (cell_bytes capacity)) [
      | none ↦ some (false, s)
      | some fresh ↦ copied fresh
    ] in
    if leb capacity s.capacity
    then some (true, s)
    else if not (cap_is_valid capacity)
    then some (false, s)
    else grown

unfoldable pub push : Malloc → Stack → ℕ → Option (Option ℕ × Stack)
unfolding store
push malloc s data' =
    let place = λ (g : Stack). store g.nodes g.top data' >>= λ nodes.
    some (some g.top, record g { top = suc g.top; nodes = nodes }) in
    if s.top == s.capacity
    then ensure_capacity malloc s (s.capacity * 2 % 2 ^ 64)
      >>= (λ grown. if grown.0 then place grown.1 else some (none, grown.1))
    else place s

-- The node on top is given by its index and its data.
unfoldable pub top : Stack → Option (Option (ℕ × ℕ))
top s =
    if s.top == 0
    then some none
    else do data' ← get_elem? s.nodes (s.top - 1); some (some (s.top - 1, data'))

unfoldable pub pop : Bool → Stack → Option (List ℕ × Stack)
pop func_free s =
    let shorter = record s { top = s.top - 1 } in
    let free : Option (List ℕ × Stack) = do
      data' ← get_elem? s.nodes (s.top - 1)
      some (if data' == 0 then [] else data' ∷ [], shorter)
    in if s.top == 0 then some ([], s) else if func_free then free else some ([], shorter)
