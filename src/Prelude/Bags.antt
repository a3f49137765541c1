-- ===== src/Prelude/Bags.antt =====
-- Lists up to order: a bag is a list of which only the weight under each weighing is seen.
use mathlib.Core.Quot
use mathlib.Core.Quot.{Quot, Quot-set}
use Prim.Native.Nat.{ℕ}
use mathlib.Core.Path.{◌≡◌, refl}
use mathlib.Core.List.{List, ◌∷◌}
use native.Mathlib.Omega.{arith}
use cnerium.Prelude.Lists.{total}

abbrev pub SameWeight : {A : Type 0} → List A → List A → Type 0
SameWeight {A} xs ys = (w : A → ℕ) → total w xs ≡ total w ys

abbrev pub Bag : Type 0 → Type 0
Bag A = Quot (SameWeight {A = A})

module _ {A : Type 0} where
  abbrev pub bag : List A → Bag A
  bag xs = Quot.mk xs

  pub bag-eq : (xs ys : List A) → SameWeight xs ys → bag xs ≡ bag ys
  bag-eq xs ys h = Quot.sound h

  SameWeight-cons : (x : A) (xs ys : List A) → SameWeight xs ys → SameWeight (x ∷ xs) (x ∷ ys)
  SameWeight-cons x xs ys h w = omega (arith, h w)

  -- A bag with one more.
  unfoldable pub put : A → Bag A → Bag A
  unfolding SameWeight-cons
  put x =
      Quot.lift Quot-set (λ xs. Quot.mk (x ∷ xs))
        (λ xs ys h. Quot.sound (SameWeight-cons x xs ys h))

  pub put-bag : (x : A) (xs : List A) → put x (bag xs) ≡ bag (x ∷ xs)
  unfolding put
  put-bag x xs = refl
