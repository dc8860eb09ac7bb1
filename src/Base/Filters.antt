-- ===== src/Base/Filters.antt =====
-- Sublists chosen by a Boolean test, which runs where the library's `filter` wants a decision.
use Prim.Native.Nat.{◌≤◌}
use mathlib.Core.Path.{◌≡◌, refl, ◌∙◌}
use mathlib.Core.Bool.{Bool, true, false}
use mathlib.Core.List.{List, [], ◌∷◌, ◌++◌}
use native.Mathlib.Omega.{arith}
use mathlib.Core.Logic.{inl, inr}
use mathlib.Core.Path.{subst, sym}
use rank.Base.Tests.{if◌then◌else◌, Bool-cases}
use rank.Base.Lists.{All, length}

module _ {ℓ} {A : Type ℓ} where
  pub keep : (A → Bool) → List A → List A
  keep p [] = []
  keep p (x ∷ xs) = if p x then x ∷ keep p xs else keep p xs

  pub keep-nil : (p : A → Bool) → keep p [] ≡ []
  unfolding keep
  keep-nil p = refl

  pub keep-cons :
      (p : A → Bool) (x : A) (xs : List A)
      → keep p (x ∷ xs) ≡ (if p x then x ∷ keep p xs else keep p xs)
  unfolding keep
  keep-cons p x xs = refl

  pub keep-append : (p : A → Bool) (xs ys : List A) → keep p (xs ++ ys) ≡ keep p xs ++ keep p ys
  unfolding keep
  keep-append p [] ys = refl
  keep-append p (x ∷ xs) ys = ground (arith, keep-append p xs ys)

  pub keep_none : (p : A → Bool) (xs : List A) → All (λ x. p x ≡ false) xs → keep p xs ≡ []
  unfolding keep
  keep_none p [] h = refl
  keep_none p (x ∷ xs) (e, h) = ground (arith, keep_none p xs h)

  pub keep-All : (p : A → Bool) (xs : List A) → All (λ x. p x ≡ true) xs → keep p xs ≡ xs
  unfolding keep
  keep-All p [] h = refl
  keep-All p (x ∷ xs) (e, h) = ground (arith, keep-All p xs h)

  keep-true : (p : A → Bool) (x : A) (xs : List A) → p x ≡ true → keep p (x ∷ xs) ≡ x ∷ keep p xs
  unfolding keep
  keep-true p x xs h = ground arith

  keep-false : (p : A → Bool) (x : A) (xs : List A) → p x ≡ false → keep p (x ∷ xs) ≡ keep p xs
  unfolding keep
  keep-false p x xs h = ground arith

  pub length-keep : (p : A → Bool) (xs : List A) → length (keep p xs) ≤ length xs
  unfolding keep
  length-keep p [] = omega arith
  length-keep p (x ∷ xs) = ground (arith, length-keep p xs)

module _ {ℓ κ} {A : Type ℓ} (P : A → Type κ) (p : A → Bool) where
  -- What is kept had every property that all elements had.
  pub All-keep_head : (xs : List A) {y : A} {r : List A} → All P xs → keep p xs ≡ y ∷ r → P y
  All-keep_head [] h e = absurd (cc (keep-nil p))
  All-keep_head (x ∷ xs) {y} {r} (q, h) e = elim (Bool-cases (p x)) [
    | inl t ↦ subst P (cc (keep-true p x xs t)) q
    | inr f ↦ All-keep_head xs {r = r} h (sym (keep-false p x xs f) ∙ e)
  ]

  pub All-keep : (xs : List A) → All P xs → All P (keep p xs)
  All-keep [] h = subst (All P) (sym (keep-nil p)) tt
  All-keep (x ∷ xs) (q, h) = elim (Bool-cases (p x)) [
    | inl t ↦ subst (All P) (sym (keep-true p x xs t)) (q, All-keep xs h)
    | inr f ↦ subst (All P) (sym (keep-false p x xs f)) (All-keep xs h)
  ]
