-- ===== src/Crypt/Tdes/Keys.antt =====
-- The contexts that `muggle_tdes_set_key` sets up, and that their ciphers undo one another.
use mathlib.Core.List.{reverse, reverse-reverse}
use muggle_cc.Base.{ℕ, ◌<◌, ◌≤◌, ◌≡◌, sym, ap, fun_ext, ◌∙◌, arith, some, List, length}
use muggle_cc.Crypt.Modes.{ok}
use muggle_cc.Crypt.Modes.Laws.{Undoes}
use muggle_cc.Crypt.Des.{des_set_key_inner, des_set_key}
use muggle_cc.Crypt.Des.Schedule.{des_set_key_inner-reverse, des_set_key_inner_same}
use muggle_cc.Crypt.Tdes.{Context, three_keys, tdes_set_key, tdes_crypt_bytes}
use muggle_cc.Crypt.Tdes.RoundTrip.{tdes_crypt_bytes-Undoes}

-- Memory for the subkeys of three contexts.
pub record IsFull (c : Context) : Type 0 where
  pub full1 : length c.ctx1.sk ≡ 16
  pub full2 : length c.ctx2.sk ≡ 16
  pub full3 : length c.ctx3.sk ≡ 16

-- Contexts with the same keys, to encrypt and to decrypt, in memory of any contents.
pub record Keyed (mode : ℕ) (key1 key2 key3 : List ℕ) (ce cd : Context) : Type 0 where
  pub old : Context
  pub old' : Context
  pub full : IsFull old
  pub full' : IsFull old'
  pub to_encrypt : tdes_set_key 1 mode (some key1) (some key2) (some key3) (some old) ≡ ok ce
  pub to_decrypt : tdes_set_key 0 mode (some key1) (some key2) (some key3) (some old') ≡ ok cd

-- A context with its operation and mode, its subkeys made of three keys by three operations.
pub record Scheduled (c : Context) (op mode op1 op2 op3 : ℕ) (key1 key2 key3 : List ℕ)
    (old : Context) : Type 0 where
  pub has_op : c.op ≡ op
  pub has_mode : c.mode ≡ mode
  pub sk1 : c.ctx1.sk ≡ des_set_key_inner op1 key1 old.ctx1.sk
  pub sk2 : c.ctx2.sk ≡ des_set_key_inner op2 key2 old.ctx2.sk
  pub sk3 : c.ctx3.sk ≡ des_set_key_inner op3 key3 old.ctx3.sk

module _ (op mode op1 op2 op3 : ℕ) (key1 key2 key3 : List ℕ) (old c : Context) where
  three_keys-Scheduled :
      op1 < 2
      → op2 < 2
      → op3 < 2
      → three_keys (op, mode) (op1, op2, op3) key1 key2 key3 old ≡ ok c
      → Scheduled c op mode op1 op2 op3 key1 key2 key3 old
  unfolding three_keys des_set_key
  three_keys-Scheduled h1 h2 h3 e = record {
    has_op = ground (arith, e);
    has_mode = ground (arith, e);
    sk1 = ground (arith, e);
    sk2 = ground (arith, e);
    sk3 = ground (arith, e);
  }

module _ (mode : ℕ) (key1 key2 key3 : List ℕ) (ce cd : Context)
    (k : Keyed mode key1 key2 key3 ce cd) where
  pub encrypt_fields : mode < 5 → Scheduled ce 1 mode 1 0 1 key1 key2 key3 k.old
  unfolding tdes_set_key
  encrypt_fields h =
      three_keys-Scheduled 1 mode 1 0 1 key1 key2 key3 k.old ce (omega arith) (omega arith)
        (omega arith) (ground (arith, k.to_encrypt))

  pub decrypt_fields : mode < 2 → Scheduled cd 0 mode 0 1 0 key3 key2 key1 k.old'
  unfolding tdes_set_key
  decrypt_fields h =
      three_keys-Scheduled 0 mode 0 1 0 key3 key2 key1 k.old' cd (omega arith) (omega arith)
        (omega arith) (ground (arith, k.to_decrypt))

  pub stream_fields : mode < 5 → 2 ≤ mode → Scheduled cd 0 mode 1 0 1 key1 key2 key3 k.old'
  unfolding tdes_set_key
  stream_fields h l =
      three_keys-Scheduled 0 mode 1 0 1 key1 key2 key3 k.old' cd (omega arith) (omega arith)
        (omega arith) (ground (arith, k.to_decrypt))

  -- In the block modes the one cipher undoes the other.
  pub ciphers-Undoes : mode < 2 → Undoes 8 (tdes_crypt_bytes ce) (tdes_crypt_bytes cd)
  ciphers-Undoes h =
      let e = encrypt_fields (omega arith) in
      let d = decrypt_fields h in
      let o = k.old in
      let o' = k.old' in
      let second : cd.ctx2.sk ≡ reverse ce.ctx2.sk =
        d.sk2
        ∙ sym (reverse-reverse (des_set_key_inner 1 key2 o'.ctx2.sk))
        ∙ ap reverse
            (sym (des_set_key_inner-reverse key2 o'.ctx2.sk o.ctx2.sk k.full'.full2 k.full.full2))
        ∙ ap reverse (sym e.sk2) in
      tdes_crypt_bytes-Undoes ce cd
        (d.sk1
          ∙ des_set_key_inner-reverse key3 o.ctx3.sk o'.ctx1.sk k.full.full3 k.full'.full1
          ∙ ap reverse (sym e.sk3))
        second
        (d.sk3
          ∙ des_set_key_inner-reverse key1 o.ctx1.sk o'.ctx3.sk k.full.full1 k.full'.full3
          ∙ ap reverse (sym e.sk1))

  -- In the stream modes they are the same.
  pub same_cipher : mode < 5 → 2 ≤ mode → tdes_crypt_bytes cd ≡ tdes_crypt_bytes ce
  unfolding tdes_crypt_bytes
  same_cipher h l =
      let e = encrypt_fields h in
      let d = stream_fields h l in
      let o = k.old in
      let o' = k.old' in
      let first =
        d.sk1
        ∙ des_set_key_inner_same key1 o.ctx1.sk o'.ctx1.sk k.full.full1 k.full'.full1
        ∙ sym e.sk1 in
      let second =
        d.sk2
        ∙ des_set_key_inner-reverse key2 o.ctx2.sk o'.ctx2.sk k.full.full2 k.full'.full2
        ∙ sym (des_set_key_inner-reverse key2 o.ctx2.sk o.ctx2.sk k.full.full2 k.full.full2)
        ∙ sym e.sk2 in
      let third =
        d.sk3
        ∙ des_set_key_inner_same key3 o.ctx3.sk o'.ctx3.sk k.full.full3 k.full'.full3
        ∙ sym e.sk3 in
      fun_ext (λ b. cc (first, second, third))
