-- ===== src/Memory/BytesBuffer/Valid.antt =====
-- The well-formed states of a bytes buffer, the bytes that it holds, and the calls that only move
-- cursors.
use muggle_cc.Base.{
  ℕ, ◌+◌, ◌-◌, ◌≤◌, ◌<◌, ◌≡◌, true, Option, some, List, [], ◌++◌, length, leb, if◌then◌else◌, arith,
  slice, length-slice, length-append,
}
use muggle_cc.Memory.BytesBuffer.{BytesBuffer, readable, writable, refresh, init}

pub record IsValid (b : BytesBuffer) : Type 0 where
  pub storage : length b.buffer ≡ b.c
  pub cut : b.t ≤ b.c
  pub below : b.w < b.t
  pub reading : b.r ≤ b.t

-- The bytes that were written and not yet read, oldest first.
unfoldable pub contents : BytesBuffer → List ℕ
unfolding slice
contents b =
    if leb b.r b.w
    then slice b.r (b.w - b.r) b.buffer
    else slice b.r (b.t - b.r) b.buffer ++ slice 0 b.w b.buffer

-- `muggle_bytes_buffer_readable` counts the contents.
pub length-contents : {b : BytesBuffer} → IsValid b → length (contents b) ≡ readable b
unfolding contents readable
length-contents {b} v = ground (
  arith,
  length-slice b.r (b.w - b.r) b.buffer,
  length-slice b.r (b.t - b.r) b.buffer,
  length-slice 0 b.w b.buffer,
  length-append (slice b.r (b.t - b.r) b.buffer) (slice 0 b.w b.buffer),
)

-- One byte of the storage is never used.
pub readable-add-writable : {b : BytesBuffer} → IsValid b → readable b + writable b < b.c
unfolding readable writable
readable-add-writable v = ground arith

pub init-IsValid :
    (malloc : ℕ → Option (List ℕ))
    → ((n : ℕ) (m : List ℕ) → malloc n ≡ some m → length m ≡ n)
    → (capacity : ℕ) {b : BytesBuffer} → 0 < capacity
    → init malloc capacity ≡ (true, b)
    → IsValid b × (contents b ≡ []) × (writable b ≡ capacity - 1)
unfolding init contents writable slice
init-IsValid malloc sized capacity h e = grind (arith, sized)

pub refresh-IsValid : {b : BytesBuffer} → IsValid b → IsValid (refresh b)
unfolding refresh
refresh-IsValid v = ground arith
