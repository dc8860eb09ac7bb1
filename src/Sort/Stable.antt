-- ===== src/Sort/Stable.antt =====
-- The specification that every sorting routine of the program is measured by: `out` is a stable
-- sort of `inp` if it ascends and holds, of each class of equal elements, the same elements in the
-- same order.
use rank.Base.{◌≡◌, false, List, [], ◌∷◌, ℤ, is_pos, is_zero, All, keep}

module _ {ℓ} {A : Type ℓ} (cmp : A → A → ℤ) where
  -- `cmp(x, y) <= 0`
  abbrev pub IsLe : A → A → Type 0
  IsLe x y = is_pos (cmp x y) ≡ false

  -- Every element is at most each later one.
  abbrev pub Ascends : List A → Type 0
  Ascends [] = Unit
  Ascends (x ∷ xs) = All (IsLe x) xs × Ascends xs

  -- The elements equal to `v` in the order, in their order.
  abbrev pub class : A → List A → List A
  class v = keep (λ x. is_zero (cmp v x))

  abbrev pub SameClasses : List A → List A → Type ℓ
  SameClasses xs ys = (v : A) → class v xs ≡ class v ys

pub record IsStableSort {ℓ} {A : Type ℓ} (cmp : A → A → ℤ) (inp out : List A) : Type ℓ where
  pub ascends : Ascends cmp out
  pub classes : SameClasses cmp out inp
