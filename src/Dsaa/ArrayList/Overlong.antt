-- ===== src/Dsaa/ArrayList/Overlong.antt =====
-- `muggle_array_list_remove` on a list whose size is negative as an `int`.
use muggle_cc.Base.{
  pos, ℕ, ◌+◌, ◌-◌, ◌^◌, ◌<◌, ◌≡◌, refl, Bool, true, some, List, [], ◌∷◌, take, if◌then◌else◌,
  arith, list_ext, get_elem?-take, get_or, get_elem?-eq-get_or,
}
use muggle_cc.Dsaa.ArrayList.{ArrayList, get_index, shift_left, remove}
use muggle_cc.Dsaa.ArrayList.Casts.{rounds-negative}
use muggle_cc.Dsaa.ArrayList.Grow.{IsValid, contents}
use muggle_cc.Dsaa.ArrayList.Edit.{Holds}

shift_left-none : (i : ℕ) (a : List ℕ) → shift_left 0 i a ≡ some a
unfolding shift_left
shift_left-none i a = refl

-- On a valid list of more than 2^31 and below 2^32 entries `(int)size` is negative: with an index
-- below 2^31 `muggle_array_list_remove` returns true and hands the entry there to `free`, if there
-- is such a function, but shifts nothing, so that the entry stays and the last one is lost.
pub remove-drops_last :
    (func_free : Bool) (l : ArrayList) (idx : ℕ)
    → IsValid l
    → 2 ^ 31 < l.size
    → l.size < 2 ^ 32
    → idx < 2 ^ 31
    → (g : ArrayList) × (remove func_free l (pos idx)
        ≡ some (true, (if func_free then get_or l.nodes idx 0 ∷ [] else []), g))
      × Holds (take (l.size - 1) (contents l)) g
unfolding remove get_index
remove-drops_last func_free l idx v many most int =
    let load = get_elem?-eq-get_or l.nodes idx 0 (omega (arith, v.room, v.full)) in
    let n = rounds-negative l.size (idx + 1) many most in
    (
      record l { size = l.size - 1 },
      ground (arith, load, n, shift_left-none idx l.nodes),
      (
        record { some_capacity = v.some_capacity; room = v.room; full = omega (arith, v.full) },
        list_ext (take (l.size - 1) l.nodes) (take (l.size - 1) (contents l)) λ j. ground (
          arith,
          get_elem?-take (l.size - 1) l.nodes j,
          get_elem?-take (l.size - 1) (contents l) j,
          get_elem?-take l.size l.nodes j,
        ),
      ),
    )
