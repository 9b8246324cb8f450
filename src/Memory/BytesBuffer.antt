-- ===== src/Memory/BytesBuffer.antt =====
-- muggle/c/memory/bytes_buffer.c: a byte ring that lets a writer skip the end of the storage.
-- A byte is a number, a position is an `int` that is never negative in a valid buffer, and
-- `num_bytes` is not negative. `malloc` is a parameter: the memory that it gives has any contents.
-- The outer option of a call is a fault, a `memcpy` that leaves the storage.
pub mod Valid
pub mod Read
pub mod Write
pub mod ZeroCopy
pub mod Truncation
pub mod Stream
mod Tests
use muggle_cc.Base.{
  ℕ, ◌+◌, ◌-◌, Bool, true, false, Option, none, some, List, [], ◌++◌, length, take, drop, ltb, leb,
  ◌==◌, if◌then◌else◌, ◌>>=◌, copy_in, copy_out,
}

pub record BytesBuffer : Type 0 where
  pub c : ℕ
  pub w : ℕ
  pub r : ℕ
  pub t : ℕ
  pub buffer : List ℕ

unfoldable pub contiguous_writable : BytesBuffer → ℕ
contiguous_writable b =
    if leb b.r b.w then (if b.r == 0 then b.c - b.w - 1 else b.c - b.w) else b.r - b.w - 1

unfoldable pub jump_writable : BytesBuffer → ℕ
jump_writable b = if leb b.r b.w then (if b.r == 0 then 0 else b.r - 1) else 0

unfoldable pub jump_readable : BytesBuffer → ℕ
jump_readable b = if leb b.r b.w then 0 else b.w

unfoldable pub contiguous_readable : BytesBuffer → ℕ
contiguous_readable b = if leb b.r b.w then b.w - b.r else b.t - b.r

unfoldable pub clear : BytesBuffer → BytesBuffer
clear b = record b { w = 0; r = 0; t = b.c }

unfoldable pub refresh : BytesBuffer → BytesBuffer
unfolding clear
refresh b = if b.w == b.r then clear b else b

-- The storage of the failed initialisation, and of a destroyed buffer, is NULL: the empty list.
unfoldable pub init : (ℕ → Option (List ℕ)) → ℕ → Bool × BytesBuffer
init malloc capacity = elim (malloc capacity) [
  | none ↦ (false, record { c = 0; w = 0; r = 0; t = 0; buffer = [] })
  | some m ↦ (true, record { c = capacity; w = 0; r = 0; t = capacity; buffer = m })
]

unfoldable pub destroy : BytesBuffer → BytesBuffer
destroy b = record b { buffer = [] }

unfoldable pub writable : BytesBuffer → ℕ
unfolding contiguous_writable jump_writable
writable b = contiguous_writable b + jump_writable b

unfoldable pub readable : BytesBuffer → ℕ
unfolding contiguous_readable jump_readable
readable b = contiguous_readable b + jump_readable b

-- What reaches `dst` when the call returns true; `some none` is a call that returns false.
unfoldable pub fetch : BytesBuffer → ℕ → Option (Option (List ℕ))
unfolding contiguous_readable jump_readable copy_out
fetch b num_bytes =
    let cr = contiguous_readable b in
    let jr = jump_readable b in
    let remain = num_bytes - cr in
    let straight : Option (Option (List ℕ)) = do
      dst ← copy_out b.r num_bytes b.buffer
      some (some dst)
    in let split : Option (Option (List ℕ)) = do
      front ← if ltb 0 cr then copy_out b.r cr b.buffer else some []
      back ← copy_out 0 remain b.buffer
      some (some (front ++ back))
      in if leb num_bytes cr then straight else if ltb (cr + jr) num_bytes then some none else split

unfoldable pub read : BytesBuffer → ℕ → Option (Option (List ℕ) × BytesBuffer)
unfolding contiguous_readable jump_readable refresh copy_out
read b num_bytes =
    let cr = contiguous_readable b in
    let jr = jump_readable b in
    let remain = num_bytes - cr in
    let r' = b.r + num_bytes in
    let straight : Option (Option (List ℕ) × BytesBuffer) = do
      dst ← copy_out b.r num_bytes b.buffer
      some (some dst, refresh (record b { r = if r' == b.t then 0 else r' }))
    in let split : Option (Option (List ℕ) × BytesBuffer) = do
      front ← if ltb 0 cr then copy_out b.r cr b.buffer else some []
      back ← copy_out 0 remain b.buffer
      some (some (front ++ back), refresh (record b { r = remain }))
      in if leb num_bytes cr
        then straight
        else if ltb (cr + jr) num_bytes
        then some (none, b)
        else split

-- The cursor after `w += num_bytes`, with the two tests on `t` and on the end of the storage.
unfoldable pub advance : BytesBuffer → ℕ → BytesBuffer
advance b num_bytes =
    let w' = b.w + num_bytes in
    record b { w = if w' == b.c then 0 else w'; t = if ltb b.t w' then b.c else b.t }

-- `src` holds `num_bytes` bytes.
unfoldable pub write : BytesBuffer → List ℕ → Option (Bool × BytesBuffer)
unfolding contiguous_writable jump_writable advance copy_in
write b src =
    let num_bytes = length src in
    let cw = contiguous_writable b in
    let jw = jump_writable b in
    let remain = num_bytes - cw in
    let straight : Option (Bool × BytesBuffer) = do
      m ← copy_in b.w src b.buffer
      some (true, advance (record b { buffer = m }) num_bytes)
    in let jump : Option (Bool × BytesBuffer) = do
      m ← copy_in 0 src b.buffer
      some (true, record b { t = b.w; w = num_bytes; buffer = m })
      in let split : Option (Bool × BytesBuffer) = do
        m ← if ltb 0 cw then copy_in b.w (take cw src) b.buffer else some b.buffer
        m' ← copy_in 0 (drop cw src) m
        some (true, record b { t = b.c; w = remain; buffer = m' })
        in if leb num_bytes cw
          then straight
          else if ltb (cw + jw) num_bytes
          then some (false, b)
          else if leb num_bytes jw
          then jump
          else split

-- The pointer into the storage, as an offset; `none` is NULL.
unfoldable pub writer_fc : BytesBuffer → ℕ → Option ℕ
unfolding contiguous_writable jump_writable
writer_fc b num_bytes =
    if leb num_bytes (contiguous_writable b)
    then some b.w
    else if leb num_bytes (jump_writable b)
    then some 0
    else none

unfoldable pub writer_move : BytesBuffer → ℕ → Bool × BytesBuffer
unfolding contiguous_writable jump_writable advance
writer_move b num_bytes =
    if leb num_bytes (contiguous_writable b)
    then (true, advance b num_bytes)
    else if leb num_bytes (jump_writable b)
    then (true, record b { t = b.w; w = num_bytes })
    else (false, b)

unfoldable pub reader_fc : BytesBuffer → ℕ → Option ℕ
unfolding contiguous_readable
reader_fc b num_bytes = if leb num_bytes (contiguous_readable b) then some b.r else none

unfoldable pub reader_move : BytesBuffer → ℕ → Bool × BytesBuffer
unfolding contiguous_readable refresh
reader_move b num_bytes =
    if leb num_bytes (contiguous_readable b)
    then (true, refresh (record b { r = b.r + num_bytes }))
    else (false, b)
