-- ===== src/Common/Counts.antt =====
-- Sums of a weight over a list.
use Prim.Native.Nat.{ℕ, zero, suc, ◌+◌, ◌<◌}
use mathlib.Core.Path.{◌≡◌}
use mathlib.Core.Option.{some}
use mathlib.Core.List.{List, [], ◌∷◌, ◌++◌}
use native.Mathlib.Omega.{arith}
use vectro.Common.Lists.{length, get_or, get_elem?, set}

module _ {ℓ} {A : Type ℓ} (w : A → ℕ) where
  -- The sum of the weights of the elements.
  abbrev pub total : List A → ℕ
  total [] = 0
  total (x ∷ xs) = w x + total xs

  pub total-append : (xs ys : List A) → total (xs ++ ys) ≡ total xs + total ys
  total-append [] ys = omega arith
  total-append (x ∷ xs) ys = omega (arith, total-append xs ys)

  -- A write at `i` exchanges one weight for another.
  pub total-set :
      (xs : List A) (i : ℕ) (v d : A)
      → i < length xs
      → total (set xs i v) + w (get_or xs i d) ≡ total xs + w v
  total-set [] i v d h = elim h [ ]
  total-set (x ∷ xs) zero v d h = omega arith
  total-set (x ∷ xs) (suc i) v d h = omega (arith, total-set xs i v d (omega arith))

  pub total-set_at :
      (xs : List A) (i : ℕ) (x v : A)
      → get_elem? xs i ≡ some x
      → total (set xs i v) + w x ≡ total xs + w v
  total-set_at [] i x v e = ground arith
  total-set_at (y ∷ xs) zero x v e = ground arith
  total-set_at (y ∷ xs) (suc i) x v e = omega (arith, total-set_at xs i x v e)
