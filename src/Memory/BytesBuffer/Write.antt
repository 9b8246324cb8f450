-- ===== src/Memory/BytesBuffer/Write.antt =====
-- `muggle_bytes_buffer_write` against the contents.
use mathlib.Core.List.{append_assoc, append-nil}
use muggle_cc.Base.{
  ℕ, ◌+◌, ◌-◌, ◌≤◌, ◌<◌, ◌≡◌, true, false, some, inl, inr, List, ◌++◌, length, take, drop, arith,
  slice, overwrite, slice_zero, length-overwrite, length-take, length-drop, copy_in-eq,
  slice-overwrite_past, slice-overwrite_end, take-append-drop, le-or-gt,
}
use muggle_cc.Memory.BytesBuffer.{
  BytesBuffer, contiguous_writable, jump_writable, writable, advance, write,
}
use muggle_cc.Memory.BytesBuffer.Valid.{IsValid, contents}

-- A write that ends exactly at a stale truncation mark.
pub record HitsMark (b : BytesBuffer) (n : ℕ) : Type 0 where
  pub behind : b.r ≤ b.w
  pub ends : b.w + n ≡ b.t
  pub stale : b.t < b.c

module _ {b : BytesBuffer} (v : IsValid b) (src : List ℕ) where
  abbrev stored : ℕ → BytesBuffer
  stored o = record b { buffer = overwrite o src b.buffer }

  -- The states that the straight write, the jump and the split write leave.
  abbrev straight : BytesBuffer
  straight = advance (stored b.w) (length src)

  abbrev jumped : BytesBuffer
  jumped = record (stored 0) { t = b.w; w = length src }

  abbrev split : BytesBuffer
  split =
      let cw = contiguous_writable b in
      record b {
        t = b.c;
        w = length src - cw;
        buffer = overwrite 0 (drop cw src) (overwrite b.w (take cw src) b.buffer);
      }

  straight-IsValid :
      length src ≤ contiguous_writable b → (HitsMark b (length src) → ⊥) → IsValid straight
  unfolding contiguous_writable advance
  straight-IsValid h k = ground (arith, length-overwrite b.w src b.buffer)

  contents-straight : length src ≤ contiguous_writable b → contents straight ≡ contents b ++ src
  unfolding contiguous_writable advance contents
  contents-straight h =
      let m = overwrite b.w src b.buffer in
      ground (
        arith,
        v.storage,
        slice_zero 0 m,
        append-nil (slice b.r (b.c - b.r) m),
        slice-overwrite_end b.r (b.c - b.r) (b.w - b.r) b.w src b.buffer,
        slice-overwrite_end b.r (b.w + length src - b.r) (b.w - b.r) b.w src b.buffer,
        slice-overwrite_past b.r (b.t - b.r) b.w src b.buffer,
        slice-overwrite_end 0 (b.w + length src) b.w b.w src b.buffer,
        append_assoc (slice b.r (b.t - b.r) b.buffer) (slice 0 b.w b.buffer) src,
      )

  jumped-IsValid :
      length src ≤ jump_writable b → contiguous_writable b < length src → IsValid jumped
  unfolding contiguous_writable jump_writable
  jumped-IsValid h k = ground (arith, length-overwrite 0 src b.buffer)

  contents-jumped :
      length src ≤ jump_writable b
      → contiguous_writable b < length src
      → contents jumped ≡ contents b ++ src
  unfolding contiguous_writable jump_writable contents
  contents-jumped h k = ground (
    arith,
    v.storage,
    slice_zero 0 b.buffer,
    slice-overwrite_past b.r (b.w - b.r) 0 src b.buffer,
    slice-overwrite_end 0 (length src) 0 0 src b.buffer,
  )

  module _ (room : length src ≤ writable b) (over : contiguous_writable b < length src) where
    split-IsValid : jump_writable b < length src → IsValid split
    unfolding writable
    split-IsValid h =
        let cw = contiguous_writable b in
        let m = overwrite b.w (take cw src) b.buffer in
        ground (
          arith,
          length-take cw src,
          length-drop cw src,
          length-overwrite b.w (take cw src) b.buffer,
          length-overwrite 0 (drop cw src) m,
        )

    contents-split : jump_writable b < length src → contents split ≡ contents b ++ src
    unfolding writable contents
    contents-split h =
        let cw = contiguous_writable b in
        let m = overwrite b.w (take cw src) b.buffer in
        ground (
          arith,
          v.storage,
          length-take cw src,
          length-drop cw src,
          length-overwrite b.w (take cw src) b.buffer,
          slice_zero 0 m,
          slice-overwrite_past b.r (b.c - b.r) 0 (drop cw src) m,
          slice-overwrite_end 0 (length src - cw) 0 0 (drop cw src) m,
          slice-overwrite_end b.r (b.c - b.r) (b.w - b.r) b.w (take cw src) b.buffer,
          append_assoc (slice b.r (b.w - b.r) b.buffer) (take cw src) (drop cw src),
          take-append-drop cw src,
        )

  write-straight : length src ≤ contiguous_writable b → write b src ≡ some (true, straight)
  unfolding write
  write-straight h = ground (arith, v.storage, copy_in-eq b.w src b.buffer)

  write-jumped :
      length src ≤ jump_writable b
      → contiguous_writable b < length src
      → write b src ≡ some (true, jumped)
  unfolding write
  write-jumped h k = ground (arith, v.storage, copy_in-eq 0 src b.buffer)

  write-split :
      length src ≤ writable b
      → contiguous_writable b < length src
      → jump_writable b < length src
      → write b src ≡ some (true, split)
  unfolding write writable
  write-split h k l =
      let cw = contiguous_writable b in
      ground (
        arith,
        v.storage,
        length-take cw src,
        length-drop cw src,
        length-overwrite b.w (take cw src) b.buffer,
        copy_in-eq b.w (take cw src) b.buffer,
        copy_in-eq 0 (drop cw src) (overwrite b.w (take cw src) b.buffer),
      )

  -- On a valid buffer with room for `src`, a write that does not end exactly at a stale truncation
  -- mark returns true without leaving the storage, and leaves a valid buffer whose contents are
  -- the old contents followed by `src`.
  pub write_correct :
      length src ≤ writable b
      → (HitsMark b (length src) → ⊥)
      → (b' : BytesBuffer) × (write b src ≡ some (true, b'))
        × IsValid b'
        × (contents b' ≡ contents b ++ src)
  write_correct room clean = elim (le-or-gt (length src) (contiguous_writable b)) [
    | inl fits ↦
        (straight, write-straight fits, straight-IsValid fits clean, contents-straight fits)
    | inr over ↦ elim (le-or-gt (length src) (jump_writable b)) [
      | inl jump ↦
          (jumped, write-jumped jump over, jumped-IsValid jump over, contents-jumped jump over)
      | inr both ↦ (
        split,
        write-split room over both,
        split-IsValid room over both,
        contents-split room over both,
      )
    ]
  ]

-- A write of more than `writable` bytes returns false, and the buffer is unchanged.
pub write-full :
    (b : BytesBuffer) (src : List ℕ) → writable b < length src → write b src ≡ some (false, b)
unfolding write writable
write-full b src h = ground arith
