-- ===== src/Dsaa/Stack/Tests.antt =====
-- Concrete runs of stack.c, and its theorems at a concrete stack.
use muggle_cc.Base.{
  ℕ, ◌-◌, ◌/◌, ◌<◌, ◌≡◌, refl, true, none, some, [], ◌∷◌, ◌++◌, replicate, length-replicate, arith,
  Yields,
}
use muggle_cc.Dsaa.Cells.{Malloc, Sized, non_null}
use muggle_cc.Dsaa.Stack.{Stack, init, clear, ensure_capacity, push, top, pop}
use muggle_cc.Dsaa.Stack.Laws.{
  IsValid, contents, Holds, Ensured, ensure_capacity_keeps, Pushed, push-Pushed, pop_takes,
  clear-Holds, init-Holds,
}

abbrev malloc : Malloc
malloc bytes = some (replicate (bytes / 8) 7)

malloc-Sized : Sized malloc
malloc-Sized bytes m e = grind (arith, length-replicate)

abbrev sample : Stack
sample = record { capacity = 2; top = 2; nodes = 10 ∷ 20 ∷ [] }

sample-IsValid : IsValid sample
sample-IsValid = omega arith

push_runs :
    push malloc sample 30
    ≡ some (some 2, record { capacity = 4; top = 3; nodes = 10 ∷ 20 ∷ 30 ∷ 7 ∷ [] })
unfolding push ensure_capacity
push_runs = refl

init-Holds_example :
    let s : Stack = record { capacity = 2; top = 0; nodes = 7 ∷ 7 ∷ [] } in
    Holds [] s × (s.capacity ≡ 2)
unfolding init
init-Holds_example = init-Holds malloc malloc-Sized 2 (omega arith) refl

ensure_capacity_keeps_example : Yields (ensure_capacity malloc sample 5) (Ensured sample 5)
ensure_capacity_keeps_example =
    ensure_capacity_keeps malloc malloc-Sized sample sample-IsValid 5 (omega arith)

push-Pushed_example : Yields (push malloc sample 30) (Pushed malloc malloc-Sized 30 sample)
push-Pushed_example = push-Pushed malloc malloc-Sized 30 sample sample-IsValid (omega arith)

pop_takes_example :
    (0 < 2
      → (x : ℕ) × (g : Stack) × (contents sample ≡ contents g ++ (x ∷ []))
        × (top sample ≡ some (some (2 - 1, x)))
        × (pop true sample ≡ some (non_null (x ∷ []), g))
        × IsValid g)
    × (◌≡◌ {A = ℕ} 2 0 → (top sample ≡ some none) × (pop true sample ≡ some ([], sample)))
pop_takes_example = pop_takes true sample sample-IsValid

clear-Holds_example :
    Yields (clear true sample) (λ r. (r.0 ≡ non_null (contents sample)) × Holds [] r.1)
clear-Holds_example = clear-Holds true sample sample-IsValid
