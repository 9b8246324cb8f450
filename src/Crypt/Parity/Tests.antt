-- ===== src/Crypt/Parity/Tests.antt =====
-- Runs of parity.c, and its theorems at a concrete byte.
use muggle_cc.Base.{◌≡◌, refl, some, arith, Yields}
use muggle_cc.Crypt.Parity.{
  parity_set_odd, parity_set_even, parity_check_odd, parity_check_even, parity_gen, parity_entry,
  s_odd_parity,
}
use muggle_cc.Crypt.Parity.Laws.{
  HasParity, parity_set-HasParity, parity_check_counts, tables-eq-gen,
}

gen_runs : parity_gen 1 ≡ s_odd_parity
unfolding parity_gen s_odd_parity
gen_runs = refl

parity_set-HasParity_example :
    Yields (parity_set_odd 11) (HasParity 1 11) × Yields (parity_set_even 11) (HasParity 0 11)
parity_set-HasParity_example = parity_set-HasParity 11 (omega arith)

parity_check_counts_example : (parity_check_odd 11 ≡ some 1) × (parity_check_even 11 ≡ some 0)
parity_check_counts_example = parity_check_counts 11 (omega arith)

tables-eq-gen_example :
    (parity_set_odd 11 ≡ some (parity_entry 1 11)) × (parity_set_even 11 ≡ some (parity_entry 0 11))
tables-eq-gen_example = tables-eq-gen 11 (omega arith)
