-- ===== src/Dsaa/Sort/Gap.antt =====
-- Arrays in order at a gap, the multiset of an array, and an entry that moves down by gaps.
use muggle_cc.Base.{
  ℕ, zero, suc, ◌+◌, ◌-◌, ◌≤◌, ◌<◌, ◌≡◌, ◌≢◌, refl, ◌∙◌, Bool, List, [], ◌∷◌, length, set, get_or,
  get_or-set, length-set, if◌then◌else◌, arith,
}

abbrev pub at : List ℕ → ℕ → ℕ
at a i = get_or a i 0

abbrev pub one : (ℕ → Bool) → ℕ → ℕ
one p x = if p x then 1 else 0

-- How many entries satisfy `p`: two arrays with the same counts are permutations of one another.
abbrev pub count : (ℕ → Bool) → List ℕ → ℕ
count p [] = 0
count p (x ∷ a) = one p x + count p a

pub count-set :
    (p : ℕ → Bool) (a : List ℕ) (i x : ℕ)
    → i < length a
    → count p (set a i x) + one p (at a i) ≡ count p a + one p x
count-set p [] i x h = absurd (omega arith)
count-set p (y ∷ a) zero x h = omega arith
count-set p (y ∷ a) (suc i) x h = omega (arith, count-set p a i x)

abbrev pub SamePointers : List ℕ → List ℕ → Type 0
SamePointers a b = (length a ≡ length b) × ((p : ℕ → Bool) → count p a ≡ count p b)

module _ (rank : ℕ → ℕ) (g : ℕ) (pos : 1 ≤ g) where
  -- Entries before `n` that are `g` apart are in order.
  abbrev pub IsGapSorted : List ℕ → ℕ → Type 0
  IsGapSorted a n = (c : ℕ) → g ≤ c → c < n → rank (at a (c - g)) ≤ rank (at a c)

  -- The entry `x` is to go into the hole at `j`, or further down; above, all is in order.
  pub record Hole (a : List ℕ) (n j x : ℕ) : Type 0 where
    pub inside : j < n
    pub room : n ≤ length a
    pub edges : (c : ℕ) → g ≤ c → c < n → c ≢ j → c ≢ j + g → rank (at a (c - g)) ≤ rank (at a c)
    pub over : j + g < n → rank x ≤ rank (at a (j + g))
    pub bridge : g ≤ j → j + g < n → rank (at a (j - g)) ≤ rank (at a (j + g))

  -- Where the loop stops.
  pub record Filled (a : List ℕ) (n j x : ℕ) (out : List ℕ × ℕ) : Type 0 where
    pub inside : out.1 < length out.0
    pub ordered : IsGapSorted (set out.0 out.1 x) n
    pub size : length out.0 ≡ length a
    pub same : (p : ℕ → Bool) → count p (set out.0 out.1 x) ≡ count p (set a j x)

  module _ (n x : ℕ) where
    pub Hole-here :
        {a : List ℕ} {j : ℕ}
        → Hole a n j x
        → (g ≤ j → rank (at a (j - g)) ≤ rank x)
        → Filled a n j x (a, j)
    Hole-here {a} {j} v under = record {
      inside = omega (arith, v.inside, v.room);
      ordered = λ c h k. ground (
        arith,
        pos,
        v.inside,
        v.room,
        v.edges c,
        v.over,
        under,
        get_or-set a j c x 0,
        get_or-set a j (c - g) x 0,
      );
      size = refl;
      same = λ p. refl;
    }

    pub Hole-move :
        {a : List ℕ} {j : ℕ}
        → Hole a n j x
        → g ≤ j
        → rank x ≤ rank (at a (j - g))
        → Hole (set a j (at a (j - g))) n (j - g) x
    Hole-move {a} {j} v low le =
        let b = at a (j - g) in
        record {
          inside = omega (arith, v.inside);
          room = omega (arith, v.room, length-set a j b);
          edges = λ c h k l m. ground (
            arith,
            pos,
            v.inside,
            v.room,
            v.edges c,
            v.bridge,
            get_or-set a j c b 0,
            get_or-set a j (c - g) b 0,
          );
          over = λ h. ground (arith, pos, v.inside, v.room, get_or-set a j (j - g + g) b 0);
          bridge = λ h k. ground (
            arith,
            pos,
            v.inside,
            v.room,
            v.edges (j - g),
            get_or-set a j (j - g - g) b 0,
            get_or-set a j (j - g + g) b 0,
          );
        }

    pub Filled-move :
        {a : List ℕ} {j : ℕ} {out : List ℕ × ℕ} (k : ℕ)
        → j < length a
        → k < length a
        → j ≢ k
        → Filled (set a j (at a k)) n k x out
        → Filled a n j x out
    Filled-move {a} {j} {out} k hj hk apart s =
        let b = set a j (at a k) in
        let kept = length-set a j (at a k) in
        record {
          inside = s.inside;
          ordered = s.ordered;
          size = s.size ∙ kept;
          same = λ p. ground (
            arith,
            kept,
            s.same p,
            count-set p b k x,
            count-set p a j (at a k),
            count-set p a j x,
            get_or-set a j k (at a k) 0,
          );
        }
