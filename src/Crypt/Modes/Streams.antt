-- ===== src/Crypt/Modes/Streams.antt =====
-- The loops of the stream modes undo themselves.
use muggle_cc.Base.{
  ℕ, ◌+◌, ◌%◌, ◌≡◌, refl, List, [], ◌∷◌, set, get_or, if◌then◌else◌, ◌==◌, bit_xor,
}
use muggle_cc.Bits.Xor.{bit_xor_cancel}
use muggle_cc.Crypt.Modes.{cfb_loop, ofb_loop, ctr_loop}

module _ (size : ℕ) (crypt : List ℕ → List ℕ) where
  pub cfb_loop-cfb_loop :
      (input iv : List ℕ) (offset : ℕ)
      → let r = cfb_loop size crypt 1 input iv offset in
        cfb_loop size crypt 0 r.output iv offset ≡ record r { output = input }
  unfolding cfb_loop
  cfb_loop-cfb_loop [] iv offset = refl
  cfb_loop-cfb_loop (x ∷ input) iv offset =
      let iv' = if offset == 0 then crypt iv else iv in
      let k = get_or iv' offset 0 in
      simp (
        bit_xor_cancel x k,
        cfb_loop-cfb_loop input (set iv' offset (bit_xor x k)) ((offset + 1) % size),
      )

  pub ofb_loop-ofb_loop :
      (input iv : List ℕ) (offset : ℕ)
      → let r = ofb_loop size crypt input iv offset in
        ofb_loop size crypt r.output iv offset ≡ record r { output = input }
  unfolding ofb_loop
  ofb_loop-ofb_loop [] iv offset = refl
  ofb_loop-ofb_loop (x ∷ input) iv offset =
      let iv' = if offset == 0 then crypt iv else iv in
      simp
        (bit_xor_cancel x (get_or iv' offset 0), ofb_loop-ofb_loop input iv' ((offset + 1) % size))

  module _ {N : Type 0} (bump : N → N) (bytes : N → List ℕ) where
    pub ctr_loop-ctr_loop :
        (input : List ℕ) (nonce : N) (block : List ℕ) (offset : ℕ)
        → let r = ctr_loop size crypt bump bytes input nonce block offset in
          ctr_loop size crypt bump bytes r.output nonce block offset ≡ record r { output = input }
    unfolding ctr_loop
    ctr_loop-ctr_loop [] nonce block offset = refl
    ctr_loop-ctr_loop (x ∷ input) nonce block offset =
        let nonce' = if offset == 0 then bump nonce else nonce in
        let block' = if offset == 0 then crypt (bytes nonce') else block in
        simp (
          bit_xor_cancel x (get_or block' offset 0),
          ctr_loop-ctr_loop input nonce' block' ((offset + 1) % size),
        )
