-- ===== src/Dsaa/Utils.antt =====
-- muggle/c/dsaa/dsaa_utils.h: what the containers share. A `void*` is a number, 0 is NULL.
use muggle_cc.Base.{ℕ, ◌-◌, ◌^◌, ◌≡◌, Bool, true, false, compare, Ordering, leb, if◌then◌else◌}

-- The sign of what a client's comparison returns. Behaviour of a comparison that the containers
-- rely on: it orders the data by a rank. (There are finitely many pointers, so every total
-- preorder of them has one.)
abbrev pub Cmp : Type 0
Cmp = ℕ → ℕ → Ordering

pub record Ranks (cmp : Cmp) (rank : ℕ → ℕ) : Type 0 where
  pub agree : (a b : ℕ) → cmp a b ≡ compare (rank a) (rank b)

abbrev pub is_lt : Ordering → Bool
is_lt Ordering.lt = true
is_lt Ordering.eq = false
is_lt Ordering.gt = false

abbrev pub is_gt : Ordering → Bool
is_gt Ordering.lt = false
is_gt Ordering.eq = false
is_gt Ordering.gt = true

abbrev pub is_eq : Ordering → Bool
is_eq Ordering.lt = false
is_eq Ordering.eq = true
is_eq Ordering.gt = false

-- MUGGLE_DS_CAP_IS_VALID. `1<<31` is an `int`: the usual compilers give INT_MIN, which the cast to
-- `uint64_t` makes 2^64 - 2^31.
unfoldable pub cap_is_valid : ℕ → Bool
cap_is_valid capacity = if leb (2 ^ 64 - 2 ^ 31) capacity then false else true
