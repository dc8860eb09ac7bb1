-- ===== src/Sort/Unique.antt =====
-- A list has exactly one stable sort under a total preorder, so any two routines that are proved
-- to sort stably return the same list.
use rank.Base.{
  ◌≡◌, refl, sym, ap, ap₂, ◌∙◌, List, [], ◌∷◌, arith, ℤ, is_zero, IsOrder, cmp_self, keep-nil,
  keep-cons, All-keep_head,
}
use rank.Sort.Stable.{IsLe, Ascends, class, SameClasses, IsStableSort}

module _ {ℓ} {A : Type ℓ} {cmp : A → A → ℤ} (o : IsOrder cmp) where
  class_hit : (x : A) (xs : List A) → class cmp x (x ∷ xs) ≡ x ∷ class cmp x xs
  class_hit x xs = ground (arith, keep-cons (λ y. is_zero (cmp x y)) x xs, cmp_self o x)

  le_self : (x : A) → IsLe cmp x x
  le_self x = ground (arith, cmp_self o x)

  head_le :
      (x y : A) (xs ys : List A)
      → Ascends cmp (y ∷ ys)
      → SameClasses cmp (x ∷ xs) (y ∷ ys)
      → IsLe cmp y x
  head_le x y xs ys (below, s) c =
      All-keep_head (IsLe cmp y) (λ z. is_zero (cmp x z)) (y ∷ ys) (le_self y, below)
        (sym (c x) ∙ class_hit x xs)

  heads_eq :
      (x y : A) (xs ys : List A)
      → IsLe cmp x y
      → IsLe cmp y x
      → SameClasses cmp (x ∷ xs) (y ∷ ys)
      → x ≡ y
  heads_eq x y xs ys p q c =
      ground (
        arith,
        c x,
        class_hit x xs,
        keep-cons (λ z. is_zero (cmp x z)) y ys,
        o.flip x y,
        o.flip y x,
      )

  tails_same :
      (x y : A) (xs ys : List A) → x ≡ y → SameClasses cmp (x ∷ xs) (y ∷ ys) → SameClasses cmp xs ys
  tails_same x y xs ys e c v = ground (
    arith,
    e,
    c v,
    keep-cons (λ z. is_zero (cmp v z)) x xs,
    keep-cons (λ z. is_zero (cmp v z)) y ys,
    ap (λ z. is_zero (cmp v z)) e,
  )

  nil_only : (y : A) (ys : List A) → ¬ SameClasses cmp [] (y ∷ ys)
  nil_only y ys c = cc (c y, class_hit y ys, keep-nil (λ z. is_zero (cmp y z)))

  pub Ascends-unique :
      (xs ys : List A) → Ascends cmp xs → Ascends cmp ys → SameClasses cmp xs ys → xs ≡ ys
  Ascends-unique [] [] _ _ _ = refl
  Ascends-unique [] (y ∷ ys) _ _ c = absurd (nil_only y ys c)
  Ascends-unique (x ∷ xs) [] _ _ c = absurd (nil_only x xs (λ v. sym (c v)))
  Ascends-unique (x ∷ xs) (y ∷ ys) sx sy c =
      let e =
        heads_eq x y xs ys (head_le y x ys xs sx (λ v. sym (c v))) (head_le x y xs ys sy c) c in
      ap₂ ◌∷◌ e (Ascends-unique xs ys sx.1 sy.1 (tails_same x y xs ys e c))

  -- Two stable sorts of one list are the same list.
  pub IsStableSort-unique :
      {inp xs ys : List A} → IsStableSort cmp inp xs → IsStableSort cmp inp ys → xs ≡ ys
  IsStableSort-unique {xs} {ys} p q =
      Ascends-unique xs ys p.ascends q.ascends (λ v. p.classes v ∙ sym (q.classes v))
