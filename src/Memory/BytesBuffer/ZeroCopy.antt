-- ===== src/Memory/BytesBuffer/ZeroCopy.antt =====
-- The calls that hand out pointers into the storage: `writer_fc`, `writer_move`, `reader_fc` and
-- `reader_move` of bytes_buffer.c.
use muggle_cc.Base.{
  ℕ, ◌+◌, ◌-◌, ◌<◌, ◌≡◌, true, none, some, List, length, take, drop, arith, slice, overwrite,
  copy_out, copy_out-eq, copy_in, copy_in-eq, take-slice, drop-slice, length-slice, take-append_le,
  drop-append_le,
}
use muggle_cc.Memory.BytesBuffer.{
  BytesBuffer, contiguous_readable, readable, writer_fc, writer_move, reader_fc, reader_move, write,
  refresh,
}
use muggle_cc.Memory.BytesBuffer.Valid.{IsValid, contents, refresh-IsValid}
use muggle_cc.Memory.BytesBuffer.Read.{contents-refresh}

-- A client that asks for a pointer, stores `src` there and moves the writer does what `write`
-- does with `src`, and the pointer is good for as many bytes.
pub writer_fc-eq-write :
    {b : BytesBuffer} (src : List ℕ) (off : ℕ)
    → IsValid b
    → writer_fc b (length src) ≡ some off
    → (m : List ℕ) × (copy_in off src b.buffer ≡ some m)
      × ((writer_move (record b { buffer = m }) (length src)).0 ≡ true)
      × (write b src ≡ some (writer_move (record b { buffer = m }) (length src)))
unfolding writer_fc writer_move write
writer_fc-eq-write {b} src off v h = (
  overwrite off src b.buffer,
  ground (arith, v.storage, copy_in-eq off src b.buffer),
  ground arith,
  ground (arith, v.storage, copy_in-eq b.w src b.buffer, copy_in-eq 0 src b.buffer),
)

-- A pointer that `reader_fc` gives for `n` bytes of a valid buffer shows the oldest `n` bytes, and
-- `reader_move` then drops exactly these and keeps the buffer valid.
pub reader_fc_correct :
    {b : BytesBuffer} (n off : ℕ)
    → IsValid b
    → reader_fc b n ≡ some off
    → (b' : BytesBuffer) × (copy_out off n b.buffer ≡ some (take n (contents b)))
      × (reader_move b n ≡ (true, b'))
      × IsValid b'
      × (contents b' ≡ drop n (contents b))
unfolding reader_fc reader_move contents
reader_fc_correct {b} n off v h =
    let front = slice b.r (b.t - b.r) b.buffer in
    let back = slice 0 b.w b.buffer in
    let moved = record b { r = b.r + n } in
    let moved-IsValid : IsValid moved = ground arith in
    (
      refresh moved,
      ground (
        arith,
        v.storage,
        copy_out-eq b.r n b.buffer,
        take-slice n b.r (b.w - b.r) b.buffer,
        take-slice n b.r (b.t - b.r) b.buffer,
        length-slice b.r (b.t - b.r) b.buffer,
        take-append_le n front back,
      ),
      ground arith,
      refresh-IsValid moved-IsValid,
      ground (
        arith,
        v.storage,
        contents-refresh moved,
        drop-slice n b.r (b.w - b.r) b.buffer,
        drop-slice n b.r (b.t - b.r) b.buffer,
        length-slice b.r (b.t - b.r) b.buffer,
        drop-append_le n front back,
      ),
    )

-- A zero-copy reader that takes the last contiguous bytes of a valid buffer whose writer has
-- jumped gets no pointer to any of the bytes behind the jump, though these are readable, and it
-- gets none after any further zero-copy write.
pub reader_move-stuck :
    {b : BytesBuffer} (n m : ℕ)
    → IsValid b
    → b.w < b.r
    → 0 < n
    → (b' : BytesBuffer) × (reader_move b (contiguous_readable b) ≡ (true, b'))
      × (readable b' ≡ b.w)
      × (reader_fc b' n ≡ none)
      × (reader_fc (writer_move b' m).1 n ≡ none)
unfolding reader_move reader_fc readable writer_move
reader_move-stuck {b} n m v jumped pos =
    (record b { r = b.t }, ground arith, ground arith, ground arith, ground arith)
