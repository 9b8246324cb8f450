-- ===== src/Crypt/Des/Keys.antt =====
-- The contexts that `muggle_des_set_key` sets up for one key, and that their ciphers undo one another.
use mathlib.Core.List.{reverse}
use muggle_cc.Base.{ℕ, ◌<◌, ◌≤◌, ◌≡◌, sym, ap, ◌∙◌, arith, subst, some, List, length}
use muggle_cc.Crypt.Modes.{ok}
use muggle_cc.Crypt.Modes.Laws.{Undoes}
use muggle_cc.Crypt.Des.{Context, des_set_key_inner, des_set_key, des_crypt_bytes}
use muggle_cc.Crypt.Des.Schedule.{des_set_key_inner-reverse, des_set_key_inner_same}
use muggle_cc.Crypt.Des.RoundTrip.{des_crypt_bytes-Undoes}

-- Contexts with the same key, to encrypt and to decrypt, in memory of any contents.
pub record Keyed (mode : ℕ) (key : List ℕ) (ce cd : Context) : Type 0 where
  pub old : Context
  pub old' : Context
  pub full : length old.sk ≡ 16
  pub full' : length old'.sk ≡ 16
  pub to_encrypt : des_set_key 1 mode (some key) (some old) ≡ ok ce
  pub to_decrypt : des_set_key 0 mode (some key) (some old') ≡ ok cd

module _ (mode : ℕ) (key : List ℕ) (ce cd : Context) (k : Keyed mode key ce cd) where
  pub encrypt_fields :
      mode < 5 → (ce.op ≡ 1) × (ce.mode ≡ mode) × (ce.sk ≡ des_set_key_inner 1 key k.old.sk)
  unfolding des_set_key
  encrypt_fields h = ground (arith, k.to_encrypt)

  pub decrypt_fields :
      mode < 2 → (cd.op ≡ 0) × (cd.mode ≡ mode) × (cd.sk ≡ des_set_key_inner 0 key k.old'.sk)
  unfolding des_set_key
  decrypt_fields h = ground (arith, k.to_decrypt)

  pub stream_fields :
      mode < 5
      → 2 ≤ mode
      → (cd.op ≡ 0) × (cd.mode ≡ mode) × (cd.sk ≡ des_set_key_inner 1 key k.old'.sk)
  unfolding des_set_key
  stream_fields h l = ground (arith, k.to_decrypt)

  -- In the block modes the one cipher undoes the other.
  pub ciphers-Undoes : mode < 2 → Undoes 8 (des_crypt_bytes ce.sk) (des_crypt_bytes cd.sk)
  ciphers-Undoes h =
      let (_, _, se) = encrypt_fields (omega arith) in
      let (_, _, sd) = decrypt_fields h in
      let swapped : cd.sk ≡ reverse ce.sk =
        sd
        ∙ des_set_key_inner-reverse key k.old.sk k.old'.sk k.full k.full'
        ∙ ap reverse (sym se) in
      subst (λ s. Undoes 8 (des_crypt_bytes ce.sk) (des_crypt_bytes s)) (sym swapped)
        (des_crypt_bytes-Undoes ce.sk)

  -- In the stream modes they are the same.
  pub same_subkeys : mode < 5 → 2 ≤ mode → cd.sk ≡ ce.sk
  same_subkeys h l =
      (stream_fields h l).2
      ∙ des_set_key_inner_same key k.old.sk k.old'.sk k.full k.full'
      ∙ sym (encrypt_fields h).2
