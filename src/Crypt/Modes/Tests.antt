-- ===== src/Crypt/Modes/Tests.antt =====
-- Runs of the modes of operation.
use muggle_cc.Base.{ℕ, ◌+◌, ◌-◌, ◌*◌, ◌%◌, ◌^◌, ◌≡◌, refl, List, [], ◌∷◌, map}
use muggle_cc.Crypt.Modes.{cfb_loop, round_up}

-- In place of a cipher.
abbrev toy : List ℕ → List ℕ
toy block = map (λ b. (b * 7 + 3) % 256) block

abbrev vector : List ℕ
vector = 1 ∷ 2 ∷ 3 ∷ 4 ∷ []

abbrev front : List ℕ
front = 10 ∷ 20 ∷ 30 ∷ []

cfb_run : (cfb_loop 4 toy 1 front vector 2).offset ≡ 1
unfolding cfb_loop
cfb_run = refl

-- The sum wraps around in `unsigned int`: the greatest size is rounded up to 0.
round_up_wraps : round_up (2 ^ 32 - 1) 8 ≡ 0
round_up_wraps = refl
