-- ===== src/Memory/BytesBuffer/Stream.antt =====
-- A client that mixes calls of `muggle_bytes_buffer_write` and `muggle_bytes_buffer_read`: a bytes
-- buffer carries a stream.
use mathlib.Core.List.{append_assoc, append-nil}
use muggle_cc.Base.{
  if◌then◌else◌, ℕ, ◌≡◌, sym, ap, ◌∙◌, subst, true, Bool, none, some, inl, inr, List, [], ◌++◌,
  length, take, arith, take-append-drop, le-or-gt,
}
use muggle_cc.Memory.BytesBuffer.{BytesBuffer, writable, write, read}
use muggle_cc.Memory.BytesBuffer.Valid.{IsValid, contents}
use muggle_cc.Memory.BytesBuffer.Read.{read_correct, read_short}
use muggle_cc.Memory.BytesBuffer.Write.{HitsMark, write_correct, write-full}

-- A run from one buffer to another, with the bytes that writes accepted and the bytes that reads
-- delivered. No write of the run ends exactly at a stale truncation mark.
pub data Run : BytesBuffer → List ℕ → List ℕ → BytesBuffer → Type 0 where
  done : {b : BytesBuffer} → Run b [] [] b
  put :
      {b b' b'' : BytesBuffer} {acc del : List ℕ} (src : List ℕ) (ok : Bool)
      → (HitsMark b (length src) → ⊥)
      → write b src ≡ some (ok, b')
      → Run b' acc del b''
      → Run b ((if ok then src else []) ++ acc) del b''
  get :
      {b b' b'' : BytesBuffer} {acc del : List ℕ} (n : ℕ) (out : List ℕ)
      → read b n ≡ some (some out, b')
      → Run b' acc del b''
      → Run b acc (out ++ del) b''
  get_short :
      {b b' b'' : BytesBuffer} {acc del : List ℕ} (n : ℕ)
      → read b n ≡ some (none, b')
      → Run b' acc del b''
      → Run b acc del b''

-- One accepted write, one refused write, one delivered read, one refused read.
write_step :
    {b b' : BytesBuffer} (src : List ℕ) (ok : Bool)
    → IsValid b
    → (HitsMark b (length src) → ⊥)
    → write b src ≡ some (ok, b')
    → IsValid b' × (contents b' ≡ contents b ++ (if ok then src else []))
write_step {b} {b'} src ok v clean e = elim (le-or-gt (length src) (writable b)) [
  | inl room ↦
      let (t, we, tv, tc) = write_correct v src room clean in
      let same : t ≡ b' = cc in
      let accepted : true ≡ ok = cc in (subst IsValid same tv, rw (← same, ← accepted) tc)
  | inr over ↦ ground (arith, write-full b src over, append-nil (contents b))
]

read_step :
    {b b' : BytesBuffer} (n : ℕ) (out : List ℕ)
    → IsValid b
    → read b n ≡ some (some out, b')
    → IsValid b' × (contents b ≡ out ++ contents b')
read_step {b} {b'} n out v e = elim (le-or-gt n (length (contents b))) [
  | inl enough ↦
      let (t, re, tv, tc) = read_correct n v enough in
      let same : t ≡ b' = cc in
      let handed : take n (contents b) ≡ out = cc in
      (subst IsValid same tv, rw (← handed, ← same, tc, take-append-drop))
  | inr short ↦ ground (arith, read_short n v short)
]

short_step : {b b' : BytesBuffer} (n : ℕ) → IsValid b → read b n ≡ some (none, b') → b ≡ b'
short_step {b} {b'} n v e = elim (le-or-gt n (length (contents b))) [
  | inl enough ↦ let (t, re, tv, tc) = read_correct n v enough in cc
  | inr short ↦ let (re, fe) = read_short n v short in cc
]

-- Whatever sequence of reads and writes a client makes from a valid buffer, with no write ending
-- exactly at a stale truncation mark: the buffer stays valid, and the bytes held at the start
-- followed by the accepted ones are the delivered ones followed by the bytes held at the end.
pub Run_streams :
    {b b' : BytesBuffer} {acc del : List ℕ}
    → IsValid b
    → Run b acc del b'
    → IsValid b' × (contents b ++ acc ≡ del ++ contents b')
Run_streams {b} v done = (v, append-nil (contents b))
Run_streams {b} {b'} v (put {acc = acc} src ok clean e rest) =
    let (v', grown) = write_step src ok v clean e in
    let (v'', stream) = Run_streams v' rest in
    (
      v'',
      sym (append_assoc (contents b) (if ok then src else []) acc)
          ∙ ap (λ s. s ++ acc) (sym grown)
          ∙ stream,
    )
Run_streams {b} {b'} v (get {acc = acc} {del = del} n out e rest) =
    let (v', taken) = read_step n out v e in
    let (v'', stream) = Run_streams v' rest in
    (
      v'',
      ap (λ s. s ++ acc) taken
          ∙ append_assoc out _ acc
          ∙ ap (λ s. out ++ s) stream
          ∙ sym (append_assoc out del (contents b')),
    )
Run_streams {b} {b'} {acc} {del} v (get_short n e rest) =
    let same = short_step n v e in rw same (Run_streams (subst IsValid same v) rest)
