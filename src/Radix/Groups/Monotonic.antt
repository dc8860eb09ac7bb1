-- ===== src/Radix/Groups/Monotonic.antt =====
-- The tests of src/radix.c for monotonic ranges: what is taken as monotonic is left sorted.
use Prim.Native.Nat.{ℕ, zero, suc, ◌≤◌}
use mathlib.Core.Path.{subst}
use rank.Base.{
  ◌≡◌, refl, sym, ap, ◌∙◌, Bool, true, false, not, ◌&&◌, ◌||◌, inl, inr, Bool-cases, Option, none,
  some, List, [], ◌∷◌, ◌++◌, arith, ℤ, is_pos, length, All-map_imp, IsOrder,
}
use rank.Sort.Stable.{IsLe, Ascends, IsStableSort}
use rank.Sort.Reverse.{reverse, Descends, reverse-IsStableSort}
use rank.Radix.Groups.{
  last_item, front_items, reverse_line_range, monotonic_loop, is_monotonic,
  maybe_use_key_range_monotonic,
}
use rank.Radix.Groups.Laws.{IsStableSort-refl}

module _ {ℓ} {A : Type ℓ} where
  reverse-last :
      (x : A) (items : List A)
      → reverse (x ∷ items) ≡ last_item x items ∷ reverse (front_items x items)
  reverse-last x [] = refl
  reverse-last x (y ∷ items) = ap (λ t. t ++ (x ∷ [])) (reverse-last y items)

  length-front_items : (x : A) (items : List A) → length (front_items x items) ≡ length items
  length-front_items x [] = refl
  length-front_items x (y ∷ items) = ap suc (length-front_items y items)

  -- With enough fuel `reverse_line_range` turns a range round.
  pub reverse_line_range-reverse :
      (fuel : ℕ) (items : List A)
      → length items ≤ fuel
      → reverse_line_range fuel items ≡ reverse items
  unfolding reverse_line_range
  reverse_line_range-reverse zero [] h = refl
  reverse_line_range-reverse zero (x ∷ items) h = absurd (omega arith)
  reverse_line_range-reverse (suc fuel) [] h = refl
  reverse_line_range-reverse (suc fuel) (x ∷ []) h = refl
  reverse_line_range-reverse (suc fuel) (x ∷ y ∷ items) h =
      ap (λ t. last_item y items ∷ (t ++ (x ∷ [])))
        (reverse_line_range-reverse fuel (front_items y items)
          (omega (arith, length-front_items y items)))
      ∙ ap (λ t. t ++ (x ∷ [])) (sym (reverse-last y items))

module _ {ℓ} {A : Type ℓ} {c : A → A → ℤ} (o : IsOrder c) where
  -- Each item is at most, or above, the next one.
  abbrev Steps : Bool → A → List A → Type 0
  Steps sign x [] = Unit
  Steps sign x (y ∷ items) = (is_pos (c x y) ≡ sign) × Steps sign y items

  Steps-up : (x : A) (items : List A) → Steps false x items → Ascends c (x ∷ items)
  Steps-up x [] h = (tt, tt)
  Steps-up x (y ∷ items) (le, h) =
      let (b, s) = Steps-up y items h in
      ((le, All-map_imp (IsLe c y) (IsLe c x) (λ z k. o.trans x y z le k) items b), (b, s))

  Steps-down : (x : A) (items : List A) → Steps true x items → Descends c (x ∷ items)
  Steps-down x [] h = (tt, tt)
  Steps-down x (y ∷ items) (gt, h) =
      let (b, s) = Steps-down y items h in
      (
        (
          gt,
          All-map_imp (λ z. is_pos (c y z) ≡ true) (λ z. is_pos (c x z) ≡ true)
              (λ z k. ground (
                arith,
                o.flip y z,
                o.flip z y,
                o.flip x z,
                o.flip x y,
                o.trans y z x,
                o.trans x z y,
                o.flip y x,
                o.flip z x,
              ))
              items b,
        ),
        (b, s),
      )

  -- A flag that is set at the end was set before, and is true of all steps.
  loop_down :
      (up down : Bool) (x : A) (items : List A)
      → monotonic_loop c up down x items ≡ some true
      → (down ≡ true) × Steps true x items
  unfolding monotonic_loop
  loop_down up down x [] e = (ground arith, tt)
  loop_down up down x (y ∷ items) e =
      elim (Bool-cases (not (up && not (is_pos (c x y))) && not (down && is_pos (c x y)))) [
        | inl stopped ↦ absurd (ground arith)
        | inr goes ↦
            let (d, h) =
              loop_down (up && not (is_pos (c x y))) (down && is_pos (c x y)) y items
                (ground arith) in
            (ground arith, (ground arith, h))
      ]

  loop_up :
      (up down : Bool) (x : A) (items : List A)
      → (up || down) ≡ true
      → monotonic_loop c up down x items ≡ some false
      → (up ≡ true) × Steps false x items
  unfolding monotonic_loop
  loop_up up down x [] u e = (ground arith, tt)
  loop_up up down x (y ∷ items) u e =
      elim (Bool-cases (not (up && not (is_pos (c x y))) && not (down && is_pos (c x y)))) [
        | inl stopped ↦ absurd (ground arith)
        | inr goes ↦
            let (d, h) =
              loop_up (up && not (is_pos (c x y))) (down && is_pos (c x y)) y items (ground arith)
                (ground arith) in
            (ground arith, (ground arith, h))
      ]

  pub is_monotonic-Descends : (items : List A) → is_monotonic c items ≡ some true → Descends c items
  unfolding is_monotonic
  is_monotonic-Descends [] e = tt
  is_monotonic-Descends (x ∷ items) e = Steps-down x items (loop_down true true x items e).1

  pub is_monotonic-Ascends : (items : List A) → is_monotonic c items ≡ some false → Ascends c items
  unfolding is_monotonic
  is_monotonic-Ascends [] e = tt
  is_monotonic-Ascends (x ∷ items) e = Steps-up x items (loop_up true true x items refl e).1

  -- A range that `maybe_use_key_range_monotonic` takes is left as a stable sort of it.
  pub maybe_use_key_range_monotonic-IsStableSort :
      (items out : List A)
      → maybe_use_key_range_monotonic c items ≡ some out
      → IsStableSort c items out
  unfolding maybe_use_key_range_monotonic
  maybe_use_key_range_monotonic-IsStableSort items out e = by_result (is_monotonic c items) refl e
    where
      by_result :
          (r : Option Bool)
          → is_monotonic c items ≡ r
          → elim r as (λ _. Option (List A)) [
            | none ↦ none
            | some true ↦ some (reverse_line_range (length items) items)
            | some false ↦ some items
          ]
            ≡ some out
          → IsStableSort c items out
      by_result none h k = absurd (cc)
      by_result (some true) h k =
          let same : reverse items ≡ out =
            ground (arith, reverse_line_range-reverse (length items) items (omega arith)) in
          subst (IsStableSort c items) same
            (reverse-IsStableSort o items (is_monotonic-Descends items h))
      by_result (some false) h k =
          let same : items ≡ out = cc in
          subst (IsStableSort c items) same
            (IsStableSort-refl c items (is_monotonic-Ascends items h))
