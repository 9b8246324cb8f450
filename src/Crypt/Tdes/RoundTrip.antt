-- ===== src/Crypt/Tdes/RoundTrip.antt =====
-- Triple DES as one Feistel network, and its three passes undone.
use mathlib.Core.List.{reverse, reverse-append, append_assoc}
use muggle_cc.Base.{ℕ, ◌≡◌, sym, ap, subst, ◌∙◌, List, ◌++◌}
use muggle_cc.Crypt.InternalDes.{Block, Subkey, des_ip, des_fp}
use muggle_cc.Crypt.Modes.Laws.{IsBytes, Undoes}
use muggle_cc.Crypt.Des.{
  feistel_loop, exchange, des_crypt, des_crypt_bytes, block_of_bytes, bytes_of_block,
}
use muggle_cc.Crypt.Des.Feistel.{feistel_loop-append}
use muggle_cc.Crypt.Des.RoundTrip.{des_crypt_bytes-Undoes}
use muggle_cc.Crypt.Tdes.{Context, tdes_crypt, tdes_crypt_bytes}

-- `muggle_tdes_crypt` is `muggle_des_crypt` with the 48 subkeys one after the other.
pub tdes_crypt-des_crypt :
    (ks1 ks2 ks3 : List Subkey) (b : Block)
    → tdes_crypt ks1 ks2 ks3 b ≡ des_crypt (ks1 ++ (ks2 ++ ks3)) b
unfolding tdes_crypt des_crypt
tdes_crypt-des_crypt ks1 ks2 ks3 b =
    let start = des_ip b in
    ap (λ t. des_fp (exchange t))
      (sym (
        feistel_loop-append ks1 (ks2 ++ ks3) start
        ∙ feistel_loop-append ks2 ks3 (feistel_loop ks1 start)))

-- The bytes of a block, likewise.
pub tdes_crypt_bytes-des_crypt_bytes :
    (c : Context) (bytes : List ℕ)
    → tdes_crypt_bytes c bytes ≡ des_crypt_bytes (c.ctx1.sk ++ (c.ctx2.sk ++ c.ctx3.sk)) bytes
unfolding tdes_crypt_bytes des_crypt_bytes
tdes_crypt_bytes-des_crypt_bytes c bytes =
    ap bytes_of_block (tdes_crypt-des_crypt c.ctx1.sk c.ctx2.sk c.ctx3.sk (block_of_bytes bytes))

reverse_three :
    (ks1 ks2 ks3 : List Subkey)
    → reverse ks3 ++ (reverse ks2 ++ reverse ks1) ≡ reverse (ks1 ++ (ks2 ++ ks3))
reverse_three ks1 ks2 ks3 = sym (
    reverse-append ks1 (ks2 ++ ks3)
    ∙ ap (λ t. t ++ reverse ks1) (reverse-append ks2 ks3)
    ∙ append_assoc (reverse ks3) (reverse ks2) (reverse ks1))

-- A context whose subkeys are those of another in reverse order undoes it.
pub tdes_crypt_bytes-Undoes :
    (ce cd : Context)
    → cd.ctx1.sk ≡ reverse ce.ctx3.sk
    → cd.ctx2.sk ≡ reverse ce.ctx2.sk
    → cd.ctx3.sk ≡ reverse ce.ctx1.sk
    → Undoes 8 (tdes_crypt_bytes ce) (tdes_crypt_bytes cd)
tdes_crypt_bytes-Undoes ce cd e1 e2 e3 =
    let u = des_crypt_bytes-Undoes (ce.ctx1.sk ++ (ce.ctx2.sk ++ ce.ctx3.sk)) in
    let keys : cd.ctx1.sk ++ (cd.ctx2.sk ++ cd.ctx3.sk)
        ≡ reverse (ce.ctx1.sk ++ (ce.ctx2.sk ++ ce.ctx3.sk)) =
      cc (e1, e2, e3, reverse_three ce.ctx1.sk ce.ctx2.sk ce.ctx3.sk) in
    record {
      block = λ b h. subst (IsBytes 8) (sym (tdes_crypt_bytes-des_crypt_bytes ce b)) (u.block b h);
      undo = λ b h.
          tdes_crypt_bytes-des_crypt_bytes cd (tdes_crypt_bytes ce b)
          ∙ ap (λ t. des_crypt_bytes t (tdes_crypt_bytes ce b)) keys
          ∙ ap (des_crypt_bytes (reverse (ce.ctx1.sk ++ (ce.ctx2.sk ++ ce.ctx3.sk))))
              (tdes_crypt_bytes-des_crypt_bytes ce b)
          ∙ u.undo b h;
    }
