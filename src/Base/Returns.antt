-- ===== src/Base/Returns.antt =====
-- Total correctness: a computation that may fault, or run out of fuel, yields a value that
-- satisfies a predicate.
use mathlib.Core.Path.{◌≡◌, refl}
use mathlib.Core.Bool.{Bool, true, false}
use mathlib.Core.Option.{Option, some}
use muggle_cc.Base.Tests.{if◌then◌else◌, ◌>>=◌}

abbrev pub Yields {ℓ κ} : {A : Type ℓ} → Option A → (A → Type κ) → Type (ℓ ⊔ κ)
Yields {A} o P = (a : A) × (o ≡ some a) × P a

pub Yields-bind {ℓ κ ℓ' κ'} :
    {A : Type ℓ} {B : Type ℓ'} (P : A → Type κ) (Q : B → Type κ') (o : Option A) (f : A → Option B)
    → Yields o P
    → ((a : A) → P a → Yields (f a) Q)
    → Yields (o >>= f) Q
Yields-bind P Q o f (a, e, p) next = rw e (next a p)

pub Yields-if {ℓ κ} :
    {A : Type ℓ} (P : A → Type κ) (x y : Option A) (b : Bool)
    → (b ≡ true → Yields x P)
    → (b ≡ false → Yields y P)
    → Yields (if b then x else y) P
Yields-if P x y true yea nay = yea refl
Yields-if P x y false yea nay = nay refl
