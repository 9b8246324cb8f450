-- ===== src/Memory/BytesBuffer/Truncation.antt =====
-- The truncation mark that a jump of the writer leaves behind.
use muggle_cc.Base.{
  ℕ, ◌+◌, ◌∙◌, ap, ◌<◌, ◌≡◌, true, some, List, length, arith, copy_in-eq, copy_out-eq, overwrite,
  ◌-◌, slice, length-overwrite, drop, drop-slice, length-slice,
}
use muggle_cc.Memory.BytesBuffer.{BytesBuffer, readable, write, read}
use muggle_cc.Memory.BytesBuffer.Valid.{IsValid}
use muggle_cc.Memory.BytesBuffer.Write.{HitsMark}

-- A write to a valid buffer that ends exactly at a stale truncation mark succeeds. A read of all that
-- is then readable succeeds too, but the buffer, which ought to be empty, reports as many readable
-- bytes as the mark's position; and a second read, of as many, delivers at its end the bytes of the
-- first read again.
pub write-read-replays :
    {b : BytesBuffer} (src : List ℕ)
    → IsValid b
    → HitsMark b (length src)
    → (b1 b2 b3 : BytesBuffer) × (first second : List ℕ) × (write b src ≡ some (true, b1))
      × (read b1 (readable b1) ≡ some (some first, b2))
      × (length first ≡ readable b1)
      × (readable b2 ≡ b.t)
      × (0 < readable b2)
      × (read b2 (readable b2) ≡ some (some second, b3))
      × (drop b.r second ≡ first)
unfolding write read readable
write-read-replays {b} src v h =
    let m = overwrite b.w src b.buffer in
    let size = length-overwrite b.w src b.buffer in
    let b1 = record b { buffer = m; w = b.t } in
    let b2 = record b1 { r = 0 } in
    let zero_add : 0 + b.r ≡ b.r = omega arith in
    (
      b1,
      b2,
      b2,
      slice b.r (b.t - b.r) m,
      slice 0 b.t m,
      ground (arith, v.storage, copy_in-eq b.w src b.buffer),
      ground (arith, v.storage, size, copy_out-eq b.r (b.t - b.r) m),
      ground (arith, v.storage, size, length-slice b.r (b.t - b.r) m),
      ground arith,
      ground arith,
      ground (arith, v.storage, size, copy_out-eq 0 b.t m),
      drop-slice b.r 0 b.t m ∙ ap (λ k. slice k (b.t - b.r) m) zero_add,
    )
