-- ===== src/Base/Slices.antt =====
-- `memcpy` over arrays that are lists: slices of an array, and an array with a slice overwritten.
use Prim.Native.Nat.{ℕ, ◌+◌, ◌-◌, ◌≤◌}
use mathlib.Core.Path.{◌≡◌, refl}
use mathlib.Core.List.{List, [], ◌++◌}
use mathlib.Core.Option.{Option, none, some}
use native.Mathlib.Omega.{arith}
use mathlib.Core.Logic.{inl, inr}
use muggle_cc.Base.Tests.{ltb, leb, if◌then◌else◌, le-or-gt, lt→ltb, ltb-false_of_le}
use muggle_cc.Base.Lists.{
  length, get_elem?, take, drop, length-append, length-take, length-drop, get_elem?-append,
  get_elem?-take, get_elem?-drop, take-take, drop-take, drop-drop, take_all, take-append_le,
  take-append_ge, drop-append_le, drop-append_ge,
}

module _ {ℓ} {A : Type ℓ} where
  -- The `n` entries from `off` on.
  unfoldable pub slice : ℕ → ℕ → List A → List A
  slice off n xs = take n (drop off xs)

  unfoldable pub overwrite : ℕ → List A → List A → List A
  overwrite off src xs = take off xs ++ (src ++ drop (off + length src) xs)

  -- memcpy out of, and into, an array; `none` where it leaves the array.
  unfoldable pub copy_out : ℕ → ℕ → List A → Option (List A)
  unfolding slice
  copy_out off n xs = if leb (off + n) (length xs) then some (slice off n xs) else none

  unfoldable pub copy_in : ℕ → List A → List A → Option (List A)
  unfolding overwrite
  copy_in off src xs =
      if leb (off + length src) (length xs) then some (overwrite off src xs) else none

  pub get_elem?-slice :
      (off n : ℕ) (xs : List A) (i : ℕ)
      → get_elem? (slice off n xs) i ≡ (if ltb i n then get_elem? xs (off + i) else none)
  unfolding slice
  get_elem?-slice off n xs i =
      ground (arith, get_elem?-take n (drop off xs) i, get_elem?-drop off xs i)

  pub length-slice : (off n : ℕ) (xs : List A) → off + n ≤ length xs → length (slice off n xs) ≡ n
  unfolding slice
  length-slice off n xs h = omega (arith, length-take n (drop off xs), length-drop off xs)

  pub length-overwrite :
      (off : ℕ) (src xs : List A)
      → off + length src ≤ length xs
      → length (overwrite off src xs) ≡ length xs
  unfolding overwrite
  length-overwrite off src xs h = omega (
    arith,
    length-append (take off xs) (src ++ drop (off + length src) xs),
    length-append src (drop (off + length src) xs),
    length-take off xs,
    length-drop (off + length src) xs,
  )

  pub get_elem?-overwrite :
      (off : ℕ) (src xs : List A) (i : ℕ)
      → off + length src ≤ length xs
      → get_elem? (overwrite off src xs) i ≡ (
          if ltb i off
          then get_elem? xs i
          else if ltb i (off + length src)
          then get_elem? src (i - off)
          else get_elem? xs i)
  unfolding overwrite
  get_elem?-overwrite off src xs i h =
      let rest = drop (off + length src) xs in
      let front : length (take off xs) ≡ off = omega (arith, length-take off xs) in
      rw (get_elem?-append (take off xs) (src ++ rest) i, front, get_elem?-take off xs i)
        (elim (le-or-gt off i) [
          | inr before ↦ rw (lt→ltb i off before)
          | inl after ↦
              rw
                (
                  ltb-false_of_le i off after,
                  get_elem?-append src rest (i - off),
                  get_elem?-drop (off + length src) xs (i - off - length src),
                )
                (elim (le-or-gt (off + length src) i) [
                  | inr inside ↦ rw (
                    lt→ltb (i - off) (length src) (omega arith),
                    lt→ltb i (off + length src) inside,
                  )
                  | inl past ↦
                      let same : off + length src + (i - off - length src) ≡ i = omega arith in
                      rw (
                        ltb-false_of_le (i - off) (length src) (omega arith),
                        ltb-false_of_le i (off + length src) past,
                        same,
                      )
                ])
        ])

  pub copy_out-eq :
      (off n : ℕ) (xs : List A) → off + n ≤ length xs → copy_out off n xs ≡ some (slice off n xs)
  unfolding copy_out
  copy_out-eq off n xs h = ground arith

  pub copy_in-eq :
      (off : ℕ) (src xs : List A)
      → off + length src ≤ length xs
      → copy_in off src xs ≡ some (overwrite off src xs)
  unfolding copy_in
  copy_in-eq off src xs h = ground arith

  pub slice_zero : (off : ℕ) (xs : List A) → slice off 0 xs ≡ []
  unfolding slice
  slice_zero off xs = refl

  pub take-slice : (n off m : ℕ) (xs : List A) → n ≤ m → take n (slice off m xs) ≡ slice off n xs
  unfolding slice
  take-slice n off m xs h = take-take n m (drop off xs) h

  pub drop-slice :
      (n off m : ℕ) (xs : List A) → drop n (slice off m xs) ≡ slice (off + n) (m - n) xs
  unfolding slice
  drop-slice n off m xs = rw (drop-take n m (drop off xs), drop-drop n off xs)

  -- What a slice of an overwritten array shows: before the write, past it, and up to its end.
  pub slice-overwrite_before :
      (off n o : ℕ) (src xs : List A)
      → off + n ≤ o
      → o ≤ length xs
      → slice off n (overwrite o src xs) ≡ slice off n xs
  unfolding slice overwrite
  slice-overwrite_before off n o src xs h k =
      let rest = src ++ drop (o + length src) xs in
      rw (
        drop-append_le off (take o xs) rest (omega (arith, length-take o xs)),
        drop-take off o xs,
        take-append_le n (take (o - off) (drop off xs)) rest
            (omega (arith, length-take (o - off) (drop off xs), length-drop off xs)),
        take-take n (o - off) (drop off xs) (omega arith),
      )

  pub slice-overwrite_past :
      (off n o : ℕ) (src xs : List A)
      → o + length src ≤ off
      → o ≤ length xs
      → slice off n (overwrite o src xs) ≡ slice off n xs
  unfolding slice overwrite
  slice-overwrite_past off n o src xs h k =
      let front : length (take o xs) ≡ o = omega (arith, length-take o xs) in
      let same : o + length src + (off - o - length src) ≡ off = omega arith in
      rw (
        drop-append_ge off (take o xs) (src ++ drop (o + length src) xs) (omega arith),
        front,
        drop-append_ge (off - o) src (drop (o + length src) xs) (omega arith),
        drop-drop (off - o - length src) (o + length src) xs,
        same,
      )

  pub slice-overwrite_end :
      (off n m o : ℕ) (src xs : List A)
      → o ≡ off + m
      → n ≡ m + length src
      → o ≤ length xs
      → slice off n (overwrite o src xs) ≡ slice off m xs ++ src
  unfolding slice overwrite
  slice-overwrite_end off n m o src xs e l k =
      let rest = src ++ drop (o + length src) xs in
      let kept = take (o - off) (drop off xs) in
      let size : length kept ≡ m =
        omega (arith, length-take (o - off) (drop off xs), length-drop off xs) in
      let left : n - length kept ≡ length src = omega arith in
      let gap : o - off ≡ m = omega arith in
      rw (
        drop-append_le off (take o xs) rest (omega (arith, length-take o xs)),
        drop-take off o xs,
        take-append_ge n kept rest (omega arith),
        left,
        take-append_le (length src) src (drop (o + length src) xs) (omega arith),
        take_all (length src) src (omega arith),
        gap,
      )
