-- ===== src/Crypt/Aes/Keys.antt =====
-- The contexts that `muggle_aes_set_key` sets up for one key, and that their ciphers undo one another.
use muggle_cc.Base.{ℕ, ◌≡◌, sym, subst, true, some, List}
use muggle_cc.Crypt.InternalAes.{is_rounds}
use muggle_cc.Crypt.Modes.{ok}
use muggle_cc.Crypt.Modes.Laws.{Undoes}
use muggle_cc.Crypt.Aes.{Context, aes_set_key, aes_crypt}
use muggle_cc.Crypt.Aes.Blocks.{aes_crypt-Undoes, set_key_rounds, set_key_same}

-- Contexts with the same key, to encrypt and to decrypt, in memory with the same contents: the words
-- that the rounds of the key do not use are left as they were.
pub record Keyed (mode : ℕ) (key : List ℕ) (ce cd : Context) : Type 0 where
  pub bits : ℕ
  pub old : Context
  pub to_encrypt : aes_set_key 1 mode (some key) bits (some old) ≡ ok ce
  pub to_decrypt : aes_set_key 0 mode (some key) bits (some old) ≡ ok cd

module _ (mode : ℕ) (key : List ℕ) (ce cd : Context) (k : Keyed mode key ce cd) where
  pub encrypt_fields : (ce.op ≡ 1) × (ce.mode ≡ mode) × (is_rounds ce.sk.rounds ≡ true)
  encrypt_fields = set_key_rounds 1 mode k.bits key k.old ce k.to_encrypt

  pub decrypt_fields : (cd.op ≡ 0) × (cd.mode ≡ mode) × (is_rounds cd.sk.rounds ≡ true)
  decrypt_fields = set_key_rounds 0 mode k.bits key k.old cd k.to_decrypt

  pub same_subkeys : cd.sk ≡ ce.sk
  same_subkeys = set_key_same 1 0 mode k.bits key k.old ce cd k.to_encrypt k.to_decrypt

  pub ciphers-Undoes : Undoes 16 (aes_crypt 1 ce.sk) (aes_crypt 0 cd.sk)
  ciphers-Undoes =
      subst (λ s. Undoes 16 (aes_crypt 1 ce.sk) (aes_crypt 0 s)) (sym same_subkeys)
        (aes_crypt-Undoes ce.sk encrypt_fields.2)
