-- ===== src/Dsaa/ArrayList/Tests.antt =====
-- Concrete runs of array_list.c, and its theorems at a concrete list.
use muggle_cc.Base.{
  pos, negsuc, ℕ, List, length, ◌/◌, ◌≡◌, refl, true, false, compare, none, some, [], ◌∷◌,
  replicate, length-replicate, get_elem?, get_or, take, arith, Yields,
}
use muggle_cc.Dsaa.Utils.{Ranks}
use muggle_cc.Dsaa.Cells.{Malloc, Sized, non_null}
use muggle_cc.Dsaa.ArrayList.{
  ArrayList, init, get_index, insert, append, remove, find, clear, ensure_capacity, make_room,
  place, insert_at, append_at, shift_left, rounds,
}
use muggle_cc.Dsaa.ArrayList.Grow.{
  IsValid, contents, Ensured, ensure_capacity-Ensured, init-IsValid,
}
use muggle_cc.Dsaa.ArrayList.Shift.{cut}
use muggle_cc.Dsaa.ArrayList.Find.{IsFirst, find_least_index, clear_empties}
use muggle_cc.Dsaa.ArrayList.Overlong.{remove-drops_last}
use muggle_cc.Dsaa.ArrayList.Edit.{Holds, Added, insert-Added, append-Added, remove_cuts}

abbrev malloc : Malloc
malloc bytes = some (replicate (bytes / 8) 7)

malloc-Sized : Sized malloc
malloc-Sized bytes m e = grind (arith, length-replicate)

by_number : Ranks compare (λ n. n)
by_number = record { agree = λ a b. refl }

abbrev sample : ArrayList
sample = record { capacity = 3; size = 3; nodes = 10 ∷ 20 ∷ 30 ∷ [] }

sample-IsValid : IsValid sample
sample-IsValid = omega arith

insert_runs :
    insert malloc sample (negsuc 0) 25
    ≡ some (some 2, record { capacity = 6; size = 4; nodes = 10 ∷ 20 ∷ 25 ∷ 30 ∷ 7 ∷ 7 ∷ [] })
unfolding insert make_room place insert_at rounds
insert_runs = refl

append_runs :
    append malloc sample (pos 0) 25
    ≡ some (some 1, record { capacity = 6; size = 4; nodes = 10 ∷ 25 ∷ 20 ∷ 30 ∷ 7 ∷ 7 ∷ [] })
unfolding append make_room place append_at rounds
append_runs = refl

remove_runs :
    remove true sample (pos 1)
    ≡ some (true, 20 ∷ [], record { capacity = 3; size = 2; nodes = 10 ∷ 30 ∷ 30 ∷ [] })
unfolding remove get_index shift_left rounds
remove_runs = refl

init-IsValid_example :
    let l : ArrayList = record { capacity = 2; size = 0; nodes = 7 ∷ 7 ∷ [] } in
    IsValid l × (contents l ≡ []) × (l.capacity ≡ 2)
unfolding init
init-IsValid_example = init-IsValid malloc malloc-Sized 2 (omega arith) refl

ensure_capacity-Ensured_example : Yields (ensure_capacity malloc sample 5) (Ensured sample 5)
ensure_capacity-Ensured_example =
    ensure_capacity-Ensured malloc malloc-Sized sample 5 sample-IsValid (omega arith)

insert-Added_example :
    Yields (insert malloc sample (pos 1) 25) (Added malloc malloc-Sized sample (pos 1) 25 1)
unfolding place
insert-Added_example =
    insert-Added malloc malloc-Sized sample (pos 1) 25 sample-IsValid (omega arith) (omega arith) 1
      refl

append-Added_example :
    Yields (append malloc sample (pos 1) 25) (Added malloc malloc-Sized sample (pos 1) 25 2)
unfolding place
append-Added_example =
    append-Added malloc malloc-Sized sample (pos 1) 25 sample-IsValid (omega arith) (omega arith) 1
      refl

remove_cuts_example :
    ((idx x : ℕ)
      → get_index sample (pos 1) ≡ some idx
      → get_elem? sample.nodes idx ≡ some x
      → (g : ArrayList) × (remove true sample (pos 1) ≡ some (true, x ∷ [], g))
        × Holds (cut idx (contents sample)) g)
    × (get_index sample (pos 1) ≡ none → remove true sample (pos 1) ≡ some (false, [], sample))
remove_cuts_example = remove_cuts true sample (pos 1) sample-IsValid (omega arith)

unfoldable sevens : ℕ → List ℕ
sevens n = replicate n 7

length-sevens : (n : ℕ) → length (sevens n) ≡ n
unfolding sevens
length-sevens n = grind (arith, length-replicate)

abbrev huge : ArrayList
huge = record { capacity = 2147483649; size = 2147483649; nodes = sevens 2147483649 }

huge-IsValid : IsValid huge
huge-IsValid = omega (arith, length-sevens 2147483649)

remove-drops_last_example :
    (g : ArrayList) × (remove true huge (pos 5) ≡ some (true, get_or huge.nodes 5 0 ∷ [], g))
    × Holds (take 2147483648 (contents huge)) g
remove-drops_last_example =
    remove-drops_last true huge 5 huge-IsValid (omega arith) (omega arith) (omega arith)

find_least_index_example :
    Yields (find compare sample (pos 1) 30) (IsFirst (λ n. n) sample.nodes 1 3 30)
unfolding get_index
find_least_index_example =
    find_least_index compare (λ n. n) by_number sample (pos 1) 30 1 sample-IsValid (omega arith)
      refl

clear_empties_example : Yields (clear true sample) (λ r.
    (r.0 ≡ non_null (contents sample)) × IsValid r.1 × (contents r.1 ≡ []) × (r.1.capacity ≡ 3))
clear_empties_example = clear_empties true sample sample-IsValid
