-- ===== src/Memory/BytesBuffer/Read.antt =====
-- `muggle_bytes_buffer_read` and `muggle_bytes_buffer_fetch` against the contents.
use muggle_cc.Base.{
  ℕ, ◌+◌, ◌-◌, ◌≤◌, ◌<◌, ◌≡◌, ap, ◌∙◌, none, some, List, ◌++◌, length, take, drop, leb, ◌==◌,
  if◌then◌else◌, arith, slice, length-slice, copy_out-eq, take-slice, drop-slice, slice_zero,
  take-append_le, take-append_ge, drop-append_le, drop-append_ge,
}
use muggle_cc.Memory.BytesBuffer.{BytesBuffer, contiguous_readable, readable, refresh, fetch, read}
use muggle_cc.Memory.BytesBuffer.Valid.{IsValid, contents, length-contents, refresh-IsValid}

-- The bytes that a call for `n` bytes copies.
abbrev prefix : BytesBuffer → ℕ → List ℕ
prefix b n =
    if leb n (contiguous_readable b)
    then slice b.r n b.buffer
    else slice b.r (contiguous_readable b) b.buffer ++ slice 0 (n - contiguous_readable b) b.buffer

-- The read cursor that the call leaves, before `refresh`.
abbrev moved : BytesBuffer → ℕ → BytesBuffer
moved b n = record b {
  r =
      if leb n (contiguous_readable b)
      then (if b.r + n == b.t then 0 else b.r + n)
      else n - contiguous_readable b;
}

prefix-eq-take :
    {b : BytesBuffer} (n : ℕ) → IsValid b → n ≤ readable b → prefix b n ≡ take n (contents b)
unfolding readable contents
prefix-eq-take {b} n v h =
    let front = slice b.r (b.t - b.r) b.buffer in
    let back = slice 0 b.w b.buffer in
    ground (
      arith,
      take-slice n b.r (b.w - b.r) b.buffer,
      take-slice n b.r (b.t - b.r) b.buffer,
      take-slice (n - (b.t - b.r)) 0 b.w b.buffer,
      length-slice b.r (b.t - b.r) b.buffer,
      take-append_le n front back,
      take-append_ge n front back,
    )

moved-IsValid : {b : BytesBuffer} (n : ℕ) → IsValid b → n ≤ readable b → IsValid (moved b n)
unfolding readable
moved-IsValid n v h = ground arith

contents-moved :
    {b : BytesBuffer} (n : ℕ)
    → IsValid b
    → n ≤ readable b
    → contents (moved b n) ≡ drop n (contents b)
unfolding readable contents
contents-moved {b} n v h =
    let front = slice b.r (b.t - b.r) b.buffer in
    let back = slice 0 b.w b.buffer in
    ground (
      arith,
      drop-slice n b.r (b.w - b.r) b.buffer,
      drop-slice n b.r (b.t - b.r) b.buffer,
      drop-slice (n - (b.t - b.r)) 0 b.w b.buffer,
      length-slice b.r (b.t - b.r) b.buffer,
      slice_zero b.t b.buffer,
      drop-append_le n front back,
      drop-append_ge n front back,
    )

pub contents-refresh : (b : BytesBuffer) → contents (refresh b) ≡ contents b
unfolding contents refresh
contents-refresh b = ground (arith, slice_zero b.r b.buffer, slice_zero 0 b.buffer)

module _ {b : BytesBuffer} (n : ℕ) (v : IsValid b) where
  -- `read` of an available amount copies within the storage, and leaves the moved buffer.
  read-eq : n ≤ readable b → read b n ≡ some (some (prefix b n), refresh (moved b n))
  unfolding read readable
  read-eq h = ground (
    arith,
    copy_out-eq b.r n b.buffer,
    copy_out-eq b.r (b.t - b.r) b.buffer,
    copy_out-eq 0 (n - (b.t - b.r)) b.buffer,
    slice_zero b.r b.buffer,
    v.storage,
  )

  fetch-eq : n ≤ readable b → fetch b n ≡ some (some (prefix b n))
  unfolding fetch readable
  fetch-eq h = ground (
    arith,
    copy_out-eq b.r n b.buffer,
    copy_out-eq b.r (b.t - b.r) b.buffer,
    copy_out-eq 0 (n - (b.t - b.r)) b.buffer,
    slice_zero b.r b.buffer,
    v.storage,
  )

  -- On a valid buffer that holds at least `n` bytes, `read` returns true without leaving the
  -- storage, hands over the oldest `n` bytes in order, and leaves a valid buffer with the rest.
  pub read_correct :
      n ≤ length (contents b)
      → (b' : BytesBuffer) × (read b n ≡ some (some (take n (contents b)), b'))
        × IsValid b'
        × (contents b' ≡ drop n (contents b))
  read_correct h =
      let enough : n ≤ readable b = omega (arith, length-contents v) in
      (
        refresh (moved b n),
        read-eq enough
            ∙ ap (λ out. some (some out, refresh (moved b n))) (prefix-eq-take n v enough),
        refresh-IsValid (moved-IsValid n v enough),
        contents-refresh (moved b n) ∙ contents-moved n v enough,
      )

  -- `fetch` gives what `read` gives, and has no effect.
  pub fetch_correct : n ≤ length (contents b) → fetch b n ≡ some (some (take n (contents b)))
  fetch_correct h =
      let enough : n ≤ readable b = omega (arith, length-contents v) in
      fetch-eq enough ∙ ap (λ out. some (some out)) (prefix-eq-take n v enough)

  -- On a valid buffer that holds less than `n` bytes, `read` and `fetch` return false, and the
  -- buffer is unchanged.
  pub read_short : length (contents b) < n → (read b n ≡ some (none, b)) × (fetch b n ≡ some none)
  unfolding read fetch readable
  read_short h = (ground (arith, length-contents v), ground (arith, length-contents v))
