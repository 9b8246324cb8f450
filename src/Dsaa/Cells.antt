-- ===== src/Dsaa/Cells.antt =====
-- Arrays of `void*`, as muggle/c/dsaa/array_list.c and muggle/c/dsaa/stack.c keep them: the memory
-- that `malloc` gives for them, the loop that copies them to a larger array, and the loop that
-- hands their data to the client's `free`.
use muggle_cc.Base.{
  ℕ, zero, suc, ◌*◌, ◌/◌, ◌%◌, ◌^◌, ◌≡◌, ◌&&◌, Option, some, List, [], ◌∷◌, length, get_elem?,
  store, ◌==◌, if◌then◌else◌, ◌>>=◌, set, get_elem?-some, get_elem?-set, length-set, ◌∙◌, refl,
  arith, Yields, slice, drop_get, take, get_elem?-take, list_ext, leb, ltb, ◌≤◌, ◌+◌,
}

abbrev pub Malloc : Type 0
Malloc = ℕ → Option (List ℕ)

-- What is relied on of `malloc`: the memory that it gives is as large as asked for.
abbrev pub Sized : Malloc → Type 0
Sized malloc = (bytes : ℕ) (m : List ℕ) → malloc bytes ≡ some m → length m ≡ bytes / 8

-- `sizeof(node) * capacity` in `size_t`
abbrev pub cell_bytes : ℕ → ℕ
cell_bytes capacity = 8 * capacity % 2 ^ 64

-- Round `i` and the `n` rounds that follow up to the size.
unfoldable pub copy_loop : ℕ → ℕ → List ℕ → List ℕ → Option (List ℕ)
unfolding store
copy_loop zero i nodes new_nodes = some new_nodes
copy_loop (suc n) i nodes new_nodes = do
  data' ← get_elem? nodes i
  new_nodes' ← store new_nodes i data'
  copy_loop n (suc i) nodes new_nodes'

-- The pointers that are not NULL, in order, are handed to `free`.
unfoldable pub free_loop : ℕ → ℕ → List ℕ → Option (List ℕ)
free_loop zero i nodes = some []
free_loop (suc n) i nodes = do
  data' ← get_elem? nodes i
  freed ← free_loop n (suc i) nodes
  some (if data' == 0 then freed else data' ∷ freed)

-- What is freed: the data of a list that are not NULL.
abbrev pub non_null : List ℕ → List ℕ
non_null [] = []
non_null (x ∷ xs) = if x == 0 then non_null xs else x ∷ non_null xs

pub record Copied (n i : ℕ) (nodes new_nodes m : List ℕ) : Type 0 where
  pub size : length m ≡ length new_nodes
  pub cells :
      (j : ℕ)
      → get_elem? m j
        ≡ (if leb i j && ltb j (i + n) then get_elem? nodes j else get_elem? new_nodes j)

pub copy_loop-Copied :
    (n i : ℕ) (nodes new_nodes : List ℕ)
    → i + n ≤ length nodes
    → i + n ≤ length new_nodes
    → Yields (copy_loop n i nodes new_nodes) (Copied n i nodes new_nodes)
unfolding copy_loop
copy_loop-Copied zero i nodes new_nodes h k =
    (new_nodes, refl, record { size = refl; cells = λ j. ground arith })
copy_loop-Copied (suc n) i nodes new_nodes h k =
    let (x, load) = get_elem?-some nodes i (omega arith) in
    let size = length-set new_nodes i x in
    let (m, run, c) =
      copy_loop-Copied n (suc i) nodes (set new_nodes i x) (omega arith) (omega arith) in
    (
      m,
      ground (arith, load, run),
      record {
        size = c.size ∙ size;
        cells = λ j. ground (arith, load, c.cells j, get_elem?-set new_nodes i j x);
      },
    )

-- The first `n` cells are copied.
pub take-Copied :
    (n : ℕ) (nodes new_nodes m : List ℕ) → Copied n 0 nodes new_nodes m → take n m ≡ take n nodes
take-Copied n nodes new_nodes m c =
    list_ext (take n m) (take n nodes)
      λ j. ground (arith, get_elem?-take n m j, get_elem?-take n nodes j, c.cells j)

pub free_loop_frees :
    (n i : ℕ) (nodes : List ℕ)
    → i + n ≤ length nodes
    → free_loop n i nodes ≡ some (non_null (slice i n nodes))
unfolding free_loop slice
free_loop_frees zero i nodes h = refl
free_loop_frees (suc n) i nodes h =
    let (x, load) = get_elem?-some nodes i (omega arith) in
    rw (load, free_loop_frees n (suc i) nodes (omega arith), drop_get nodes i x load) (ground arith)
