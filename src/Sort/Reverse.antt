-- ===== src/Sort/Reverse.antt =====
-- Reversed lists and their order.
use rank.Base.{
  ◌≡◌, refl, ap, ◌∙◌, true, false, inl, inr, Bool-cases, List, [], ◌∷◌, ◌++◌, append-nil, arith, ℤ,
  is_pos, is_zero, All, All-append, All-map_imp, IsOrder, keep, keep-cons, keep-append, keep-nil,
  keep_none,
}
use rank.Sort.Stable.{IsLe, Ascends, class, IsStableSort}

module _ {ℓ} {A : Type ℓ} where
  abbrev pub reverse : List A → List A
  reverse [] = []
  reverse (x ∷ xs) = reverse xs ++ (x ∷ [])

  All-reverse {κ} : (P : A → Type κ) (xs : List A) → All P xs → All P (reverse xs)
  All-reverse P [] h = tt
  All-reverse P (x ∷ xs) (p, h) = All-append P (reverse xs) (x ∷ []) (All-reverse P xs h) (p, tt)

  Ascends-append_last :
      (c : A → A → ℤ) (xs : List A) (x : A)
      → Ascends c xs
      → All (λ y. IsLe c y x) xs
      → Ascends c (xs ++ (x ∷ []))
  Ascends-append_last c [] x s h = (tt, tt)
  Ascends-append_last c (y ∷ xs) x (b, s) (le, h) =
      (All-append (IsLe c y) xs (x ∷ []) b (le, tt), Ascends-append_last c xs x s h)

  pub reverse-Ascends :
      (c : A → A → ℤ) (xs : List A) → Ascends c xs → Ascends (λ a b. c b a) (reverse xs)
  reverse-Ascends c [] s = tt
  reverse-Ascends c (x ∷ xs) (b, s) =
      Ascends-append_last (λ a b. c b a) (reverse xs) x (reverse-Ascends c xs s)
        (All-reverse (IsLe c x) xs b)

-- Every element is greater than each later one.
abbrev pub Descends {ℓ} : {A : Type ℓ} → (A → A → ℤ) → List A → Type 0
Descends c [] = Unit
Descends c (x ∷ xs) = All (λ y. is_pos (c x y) ≡ true) xs × Descends c xs

module _ {ℓ} {A : Type ℓ} {c : A → A → ℤ} (o : IsOrder c) where
  Ascends-Descends : (xs : List A) → Descends c xs → Ascends (λ a b. c b a) xs
  Ascends-Descends [] h = tt
  Ascends-Descends (x ∷ xs) (b, h) = (
    All-map_imp (λ y. is_pos (c x y) ≡ true) (λ y. is_pos (c y x) ≡ false)
        (λ y p. ground (arith, o.flip x y, o.flip y x)) xs b,
    Ascends-Descends xs h,
  )

  class-reverse : (v : A) (xs : List A) → Descends c xs → class c v (reverse xs) ≡ class c v xs
  class-reverse v [] h = refl
  class-reverse v (x ∷ xs) (b, h) =
      let p = λ (y : A). is_zero (c v y) in
      keep-append p (reverse xs) (x ∷ [])
      ∙ ap (λ t. t ++ keep p (x ∷ [])) (class-reverse v xs h)
      ∙ elim (Bool-cases (p x)) [
        | inl e ↦
            let none_later : keep p xs ≡ [] = keep_none p xs (
              All-map_imp (λ y. is_pos (c x y) ≡ true) (λ y. p y ≡ false)
                (λ y q. ground (
                  arith,
                  o.flip v x,
                  o.flip x v,
                  o.flip v y,
                  o.flip y v,
                  o.flip x y,
                  o.flip y x,
                  o.trans x v y,
                ))
                xs b) in
            ground (arith, none_later, keep-cons p x xs, keep-cons p x [], keep-nil p)
        | inr n ↦
            ground (arith, keep-cons p x xs, keep-cons p x [], keep-nil p, append-nil (keep p xs))
      ]

  -- A strictly descending list is sorted by turning it round.
  pub reverse-IsStableSort : (xs : List A) → Descends c xs → IsStableSort c xs (reverse xs)
  reverse-IsStableSort xs h = record {
    ascends = reverse-Ascends (λ a b. c b a) xs (Ascends-Descends xs h);
    classes = λ v. class-reverse v xs h;
  }
