-- ===== src/Memory/BytesBuffer/Tests.antt =====
-- Concrete runs of bytes_buffer.c, and its theorems at concrete buffers.
use muggle_cc.Base.{
  ℕ, ◌≡◌, ◌<◌, ◌+◌, refl, true, false, Option, none, some, List, [], ◌∷◌, ◌++◌, length, take, drop,
  replicate, length-replicate, arith, copy_in, copy_out,
}
use muggle_cc.Memory.BytesBuffer.{
  BytesBuffer, init, read, write, fetch, writable, readable, contiguous_readable, reader_fc,
  reader_move, writer_fc, writer_move,
}
use muggle_cc.Memory.BytesBuffer.Valid.{
  IsValid, contents, init-IsValid, readable-add-writable, length-contents,
}
use muggle_cc.Memory.BytesBuffer.Read.{read_correct, fetch_correct, read_short}
use muggle_cc.Memory.BytesBuffer.Write.{write_correct, write-full}
use muggle_cc.Memory.BytesBuffer.ZeroCopy.{writer_fc-eq-write, reader_fc_correct, reader_move-stuck}
use muggle_cc.Memory.BytesBuffer.Truncation.{write-read-replays}
use muggle_cc.Memory.BytesBuffer.Stream.{Run, done, put, get, Run_streams}

abbrev malloc : ℕ → Option (List ℕ)
malloc n = some (replicate n 0)

abbrev fresh : BytesBuffer
fresh = record { c = 10; w = 0; r = 0; t = 10; buffer = replicate 10 0 }

-- Eight bytes written and six read.
abbrev drained : BytesBuffer
drained = record {
  c = 10;
  w = 8;
  r = 6;
  t = 10;
  buffer = 1 ∷ 2 ∷ 3 ∷ 4 ∷ 5 ∷ 6 ∷ 7 ∷ 8 ∷ 0 ∷ 0 ∷ [];
}

-- Then four more written: the writer jumps to the front.
abbrev jumped : BytesBuffer
jumped = record {
  c = 10;
  w = 4;
  r = 6;
  t = 8;
  buffer = 11 ∷ 12 ∷ 13 ∷ 14 ∷ 5 ∷ 6 ∷ 7 ∷ 8 ∷ 0 ∷ 0 ∷ [];
}

-- Then two read: the mark at 8 is stale.
abbrev stale : BytesBuffer
stale = record jumped { r = 0 }

write-jumps : write drained (11 ∷ 12 ∷ 13 ∷ 14 ∷ []) ≡ some (true, jumped)
unfolding write
write-jumps = refl

read-wraps : read jumped 2 ≡ some (some (7 ∷ 8 ∷ []), stale)
unfolding read
read-wraps = refl

drained-IsValid : IsValid drained
drained-IsValid = omega arith

jumped-IsValid : IsValid jumped
jumped-IsValid = omega arith

stale-IsValid : IsValid stale
stale-IsValid = omega arith

init-IsValid_example : IsValid fresh × (contents fresh ≡ []) × (writable fresh ≡ 9)
unfolding init
init-IsValid_example =
    init-IsValid malloc (λ n m e. grind (arith, length-replicate)) 10 (omega arith) refl

length-contents_example : length (contents jumped) ≡ readable jumped
length-contents_example = length-contents jumped-IsValid

readable-add-writable_example : readable jumped + writable jumped < 10
readable-add-writable_example = readable-add-writable jumped-IsValid

read_correct_example :
    (b' : BytesBuffer) × (read jumped 3 ≡ some (some (take 3 (contents jumped)), b'))
    × IsValid b'
    × (contents b' ≡ drop 3 (contents jumped))
unfolding contents
read_correct_example = read_correct 3 jumped-IsValid (omega arith)

fetch_correct_example : fetch jumped 3 ≡ some (some (take 3 (contents jumped)))
unfolding contents
fetch_correct_example = fetch_correct 3 jumped-IsValid (omega arith)

read_short_example : (read jumped 7 ≡ some (none, jumped)) × (fetch jumped 7 ≡ some none)
unfolding contents
read_short_example = read_short 7 jumped-IsValid (omega arith)

write_correct_example :
    (b' : BytesBuffer) × (write drained (1 ∷ 2 ∷ 3 ∷ []) ≡ some (true, b'))
    × IsValid b'
    × (contents b' ≡ contents drained ++ (1 ∷ 2 ∷ 3 ∷ []))
unfolding writable
write_correct_example =
    write_correct drained-IsValid (1 ∷ 2 ∷ 3 ∷ []) (omega arith)
      (λ h. absurd (omega (arith, h.ends)))

write-full_example : write jumped (1 ∷ 2 ∷ []) ≡ some (false, jumped)
unfolding writable
write-full_example = write-full jumped (1 ∷ 2 ∷ []) (omega arith)

writer_fc-eq-write_example :
    (m : List ℕ) × (copy_in 0 (1 ∷ 2 ∷ 3 ∷ []) drained.buffer ≡ some m)
    × ((writer_move (record drained { buffer = m }) 3).0 ≡ true)
    × (write drained (1 ∷ 2 ∷ 3 ∷ []) ≡ some (writer_move (record drained { buffer = m }) 3))
unfolding writer_fc
writer_fc-eq-write_example = writer_fc-eq-write (1 ∷ 2 ∷ 3 ∷ []) 0 drained-IsValid refl

reader_fc_correct_example :
    (b' : BytesBuffer) × (copy_out 6 1 jumped.buffer ≡ some (take 1 (contents jumped)))
    × (reader_move jumped 1 ≡ (true, b'))
    × IsValid b'
    × (contents b' ≡ drop 1 (contents jumped))
unfolding reader_fc
reader_fc_correct_example = reader_fc_correct 1 6 jumped-IsValid refl

reader_move-stuck_example :
    (b' : BytesBuffer) × (reader_move jumped (contiguous_readable jumped) ≡ (true, b'))
    × (readable b' ≡ 4)
    × (reader_fc b' 1 ≡ none)
    × (reader_fc (writer_move b' 3).1 1 ≡ none)
reader_move-stuck_example = reader_move-stuck 1 3 jumped-IsValid (omega arith) (omega arith)

write-read-replays_example :
    (b1 b2 b3 : BytesBuffer) × (first second : List ℕ) × (write stale (15 ∷ 16 ∷ 17 ∷ 18 ∷ [])
      ≡ some (true, b1))
    × (read b1 (readable b1) ≡ some (some first, b2))
    × (length first ≡ readable b1)
    × (readable b2 ≡ 8)
    × (0 < readable b2)
    × (read b2 (readable b2) ≡ some (some second, b3))
    × (drop 0 second ≡ first)
write-read-replays_example = write-read-replays (15 ∷ 16 ∷ 17 ∷ 18 ∷ []) stale-IsValid (omega arith)

abbrev session : Run drained (11 ∷ 12 ∷ 13 ∷ 14 ∷ []) (7 ∷ 8 ∷ []) stale
unfolding read write
session =
    put (11 ∷ 12 ∷ 13 ∷ 14 ∷ []) true (λ h. absurd (omega (arith, h.ends))) refl
      (get 2 (7 ∷ 8 ∷ []) refl done)

Run_streams_example :
    IsValid stale × (contents drained ++ (11 ∷ 12 ∷ 13 ∷ 14 ∷ []) ≡ (7 ∷ 8 ∷ []) ++ contents stale)
Run_streams_example = Run_streams drained-IsValid session
