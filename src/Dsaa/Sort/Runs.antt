-- ===== src/Dsaa/Sort/Runs.antt =====
-- Ascending runs in an array, and what one step of a merge does to them.
use muggle_cc.Base.{
  ℕ, zero, suc, ◌+◌, ◌≤◌, ◌<◌, ◌≡◌, sym, ap, ◌∙◌, Bool, List, length, set, get_or-set, length-set,
  arith, subst,
}
use muggle_cc.Dsaa.Sort.Gap.{at, one}
use muggle_cc.Dsaa.Sort.Segments.{count_in, count_in_ext, Copied}

module _ (rank : ℕ → ℕ) where
  -- The `n` pointers from `lo` on are in ascending order, and rank `bound` or more.
  pub record IsRun (bound : ℕ) (a : List ℕ) (lo n : ℕ) : Type 0 where
    pub over : 1 ≤ n → bound ≤ rank (at a lo)
    pub ordered : (k : ℕ) → suc k < n → rank (at a (lo + k)) ≤ rank (at a (lo + suc k))

  pub IsRun-tail :
      {bound lo n : ℕ} {a : List ℕ} → IsRun bound a lo (suc n) → IsRun (rank (at a lo)) a (suc lo) n
  IsRun-tail {bound} {lo} {n} {a} v = record {
    over = λ h. ground (arith, v.ordered 0 (omega arith), ap (at a) (here 0), ap (at a) (here 1));
    ordered = λ k h.
        ground
          (arith, v.ordered (suc k) (omega arith), ap (at a) (next k), ap (at a) (next (suc k)));
  }
    where
      here : (k : ℕ) → lo + k ≡ k + lo
      here k = omega arith

      next : (k : ℕ) → lo + suc k ≡ suc lo + k
      next k = omega arith

  pub IsRun-cons :
      {bound lo n : ℕ} {a : List ℕ}
      → bound ≤ rank (at a lo)
      → IsRun (rank (at a lo)) a (suc lo) n
      → IsRun bound a lo (suc n)
  IsRun-cons {bound} {lo} {n} {a} h v = record { over = λ k. h; ordered = go }
    where
      go : (k : ℕ) → suc k < suc n → rank (at a (lo + k)) ≤ rank (at a (lo + suc k))
      go zero k =
          let left : at a (lo + 0) ≡ at a lo = ap (at a) (omega arith) in
          let right : at a (lo + 1) ≡ at a (suc lo) = ap (at a) (omega arith) in
          ground (arith, v.over (omega arith), left, right)
      go (suc k) l =
          let left : at a (lo + suc k) ≡ at a (suc lo + k) = ap (at a) (omega arith) in
          let right : at a (lo + suc (suc k)) ≡ at a (suc lo + suc k) = ap (at a) (omega arith) in
          ground (arith, v.ordered k (omega arith), left, right)

  pub IsRun-lower :
      {bound low lo n : ℕ} {a : List ℕ} → low ≤ bound → IsRun bound a lo n → IsRun low a lo n
  IsRun-lower h v = record { over = λ k. omega (arith, v.over k); ordered = v.ordered }

  pub IsRun-ext :
      {bound lo lo' n : ℕ} {a b : List ℕ}
      → ((k : ℕ) → k < n → at b (lo' + k) ≡ at a (lo + k))
      → IsRun bound a lo n
      → IsRun bound b lo' n
  IsRun-ext {bound} {lo} {lo'} {n} {a} {b} same v = record {
    over = λ h.
        let left : at b (lo' + 0) ≡ at b lo' = ap (at b) (omega arith) in
        let right : at a (lo + 0) ≡ at a lo = ap (at a) (omega arith) in
        ground (arith, v.over h, same 0 (omega arith), left, right);
    ordered = λ k h. ground (arith, v.ordered k h, same k (omega arith), same (suc k) h);
  }

  -- The array `b` is `arr` with the `m` and `n` entries, `t` in all, merged at `idx`.
  pub record Merged (bound : ℕ) (ptr arr : List ℕ) (l m r n idx t : ℕ) (b : List ℕ) : Type 0 where
    pub size : length b ≡ length arr
    pub before : (k : ℕ) → k < idx → at b k ≡ at arr k
    pub run : IsRun bound b idx t
    pub same : (p : ℕ → Bool) → count_in p b idx t ≡ count_in p ptr l m + count_in p ptr r n

  -- One entry `x` more in front.
  pub Merged-put :
      {bound l m r n l' m' r' n' idx t x : ℕ} {ptr arr b : List ℕ}
      → idx < length arr
      → bound ≤ rank x
      → ((p : ℕ → Bool)
          → count_in p ptr l' m' + count_in p ptr r' n'
            ≡ one p x + (count_in p ptr l m + count_in p ptr r n))
      → Merged (rank x) ptr (set arr idx x) l m r n (suc idx) t b
      → Merged bound ptr arr l' m' r' n' idx (suc t) b
  unfolding count_in
  Merged-put {bound} {l} {m} {r} {n} {l'} {m'} {r'} {n'} {idx} {t} {x} {ptr} {arr} {b} room h parts
        v =
      let here : at b idx ≡ x =
        v.before idx (omega arith) ∙ ground (arith, get_or-set arr idx idx x 0) in
      record {
        size = v.size ∙ length-set arr idx x;
        before = λ k l. v.before k (omega arith) ∙ ground (arith, get_or-set arr idx k x 0);
        run =
            IsRun-cons (omega (arith, ap rank here))
              (IsRun-lower (omega (arith, ap rank here)) v.run);
        same = λ p. omega (arith, v.same p, parts p, ap (one p) here);
      }

  -- What is left when one half is used up.
  pub Copied-Merged-right :
      {bound l r n idx t : ℕ} {ptr arr b : List ℕ}
      → t ≡ n
      → IsRun bound ptr r n
      → Copied ptr r arr idx t b
      → Merged bound ptr arr l 0 r n idx t b
  unfolding count_in
  Copied-Merged-right {bound} {l} {r} {n} {idx} {t} {ptr} {arr} {b} e v c = record {
    size = c.size;
    before = c.before;
    run = IsRun-ext c.inside (subst (λ k. IsRun bound ptr r k) (sym e) v);
    same =
        λ p. omega (arith, count_in_ext p b ptr idx r t c.inside, ap (λ k. count_in p ptr r k) e);
  }

  pub Copied-Merged-left :
      {bound l m r idx t : ℕ} {ptr arr b : List ℕ}
      → t ≡ m
      → IsRun bound ptr l m
      → Copied ptr l arr idx t b
      → Merged bound ptr arr l m r 0 idx t b
  unfolding count_in
  Copied-Merged-left {bound} {l} {m} {r} {idx} {t} {ptr} {arr} {b} e v c = record {
    size = c.size;
    before = c.before;
    run = IsRun-ext c.inside (subst (λ k. IsRun bound ptr l k) (sym e) v);
    same =
        λ p. omega (arith, count_in_ext p b ptr idx l t c.inside, ap (λ k. count_in p ptr l k) e);
  }
