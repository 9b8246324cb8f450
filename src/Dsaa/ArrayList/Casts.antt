-- ===== src/Dsaa/ArrayList/Casts.antt =====
-- The casts of a size to `int` in array_list.c, exact below 2^31 and negative above.
use muggle_cc.Base.{
  pos, negsuc, ℕ, ◌+◌, ◌-◌, ◌^◌, ◌<◌, ◌≡◌, ◌≢◌, refl, none, some, ltb, if◌then◌else◌, arith,
}
use muggle_cc.Dsaa.ArrayList.{ArrayList, to_int, rounds, get_index}

pub to_int-small : (n : ℕ) → n < 2 ^ 31 → to_int n ≡ pos n
unfolding to_int
to_int-small n h = ground arith

pub rounds-small : (size start : ℕ) → size < 2 ^ 31 → rounds size start ≡ some (size - start)
unfolding rounds
rounds-small size start h = rw (to_int-small size h, rounds) refl

pub get_index-small :
    (l : ArrayList) (n : ℕ)
    → l.size < 2 ^ 31
    → get_index l (negsuc n) ≡ (if ltb l.size (n + 1) then none else some (l.size - (n + 1)))
unfolding get_index
get_index-small l n h =
    let cast : to_int (l.size - (n + 1)) ≡ pos (l.size - (n + 1)) =
      to_int-small (l.size - (n + 1)) (omega arith) in
    rw (cast, get_index) refl

pub rounds-negative : (size start : ℕ) → 2 ^ 31 < size → size < 2 ^ 32 → rounds size start ≡ some 0
unfolding rounds to_int
rounds-negative size start many most =
    let cast : to_int size ≡ negsuc (2 ^ 32 - 1 - size) = ground arith in
    let apart : 2 ^ 32 - 1 - size ≢ 2 ^ 31 - 1 = omega arith in rw (cast, rounds) (ground arith)
