-- ===== src/Sort/Scalar/Laws.antt =====
-- The scalar merge sort is a stable sort, for every comparison function that is a total preorder.
use Prim.Native.Nat.{ℕ, zero, suc, ◌/◌, ◌≤◌, ◌<◌}
use rank.Base.{
  ◌≡◌, refl, sym, ap, ap₂, ◌∙◌, true, inl, inr, List, [], ◌∷◌, ◌++◌, append-nil, arith, ℤ, is_pos,
  is_zero, ltb, ltb→lt, ltb→le, length, take, drop, length-take, length-drop, take-append-drop,
  IsOrder, All, All-map_imp, keep-nil, keep-cons, keep-append, keep_none, Bool-cases,
}
use rank.Sort.Stable.{IsLe, Ascends, class, IsStableSort}
use rank.Sort.Scalar.{merge_ranges, merge_sort_range, scalar_sort}

module _ {ℓ} {A : Type ℓ} (compare : A → A → ℤ) where
  merge_left :
      (x y : A) (l r : List A)
      → IsLe compare x y
      → merge_ranges compare (x ∷ l) (y ∷ r) ≡ x ∷ merge_ranges compare l (y ∷ r)
  unfolding merge_ranges
  merge_left x y l r h = ground arith

  merge_right :
      (x y : A) (l r : List A)
      → is_pos (compare x y) ≡ true
      → merge_ranges compare (x ∷ l) (y ∷ r) ≡ y ∷ merge_ranges compare (x ∷ l) r
  unfolding merge_ranges
  merge_right x y l r h = ground arith

  pub merge-All {κ} :
      (P : A → Type κ) (l r : List A) → All P l → All P r → All P (merge_ranges compare l r)
  unfolding merge_ranges
  merge-All P [] r _ h = h
  merge-All P (x ∷ l) [] h _ = h
  merge-All P (x ∷ l) (y ∷ r) (px, hl) (py, hr) = elim (Bool-cases (is_pos (compare x y))) [
    | inr le ↦ rw (merge_left x y l r le) (px, merge-All P l (y ∷ r) hl (py, hr))
    | inl gt ↦ rw (merge_right x y l r gt) (py, merge-All P (x ∷ l) r (px, hl) hr)
  ]

module _ {ℓ} {A : Type ℓ} {compare : A → A → ℤ} (o : IsOrder compare) where
  pub below_trans :
      (x y : A) (l : List A) → IsLe compare x y → All (IsLe compare y) l → All (IsLe compare x) l
  below_trans x y l h = All-map_imp (IsLe compare y) (IsLe compare x) (λ z k. o.trans x y z h k) l

  merge-Ascends :
      (l r : List A)
      → Ascends compare l
      → Ascends compare r
      → Ascends compare (merge_ranges compare l r)
  unfolding merge_ranges
  merge-Ascends [] r _ h = h
  merge-Ascends (x ∷ l) [] h _ = h
  merge-Ascends (x ∷ l) (y ∷ r) (bx, sl) (by, sr) = elim (Bool-cases (is_pos (compare x y))) [
    | inr le ↦ rw (merge_left compare x y l r le) (
      merge-All compare (IsLe compare x) l (y ∷ r) bx (le, below_trans x y r le by),
      merge-Ascends l (y ∷ r) sl (by, sr),
    )
    | inl gt ↦
        let le : IsLe compare y x = ground (arith, o.flip x y, o.flip y x) in
        rw (merge_right compare x y l r gt) (
          merge-All compare (IsLe compare y) (x ∷ l) r (le, below_trans y x l le bx) by,
          merge-Ascends (x ∷ l) r (bx, sl) sr,
        )
  ]

  -- No element of a list that starts above `y` is equal to `y`.
  class_above :
      (v y x : A) (l : List A)
      → is_pos (compare x y) ≡ true
      → All (IsLe compare x) l
      → is_zero (compare v y) ≡ true
      → class compare v (x ∷ l) ≡ []
  class_above v y x l gt b e =
      keep_none (λ z. is_zero (compare v z)) (x ∷ l)
        (
          ground (
            arith,
            o.flip x y,
            o.flip y x,
            o.flip v y,
            o.flip y v,
            o.flip v x,
            o.flip x v,
            o.trans x v y,
          ),
          All-map_imp (IsLe compare x) _
              (λ z k. ground (
                arith,
                o.flip x y,
                o.flip y x,
                o.flip v y,
                o.flip y v,
                o.flip v z,
                o.flip z v,
                o.trans x z v,
                o.trans x v y,
              ))
              l b,
        )

  merge-class_left :
      (v x y : A) (l r : List A)
      → IsLe compare x y
      → class compare v (merge_ranges compare l (y ∷ r))
        ≡ class compare v l ++ class compare v (y ∷ r)
      → class compare v (merge_ranges compare (x ∷ l) (y ∷ r))
        ≡ class compare v (x ∷ l) ++ class compare v (y ∷ r)
  merge-class_left v x y l r le ih = rw (merge_left compare x y l r le) (
      ground (
        arith,
        ih,
        keep-cons (λ z. is_zero (compare v z)) x l,
        keep-cons (λ z. is_zero (compare v z)) x (merge_ranges compare l (y ∷ r)),
      ))

  merge-class_right :
      (v x y : A) (l r : List A)
      → is_pos (compare x y) ≡ true
      → All (IsLe compare x) l
      → class compare v (merge_ranges compare (x ∷ l) r)
        ≡ class compare v (x ∷ l) ++ class compare v r
      → class compare v (merge_ranges compare (x ∷ l) (y ∷ r))
        ≡ class compare v (x ∷ l) ++ class compare v (y ∷ r)
  merge-class_right v x y l r gt b ih = rw (merge_right compare x y l r gt) (
      ground (
        arith,
        ih,
        class_above v y x l gt b,
        keep-cons (λ z. is_zero (compare v z)) y r,
        keep-cons (λ z. is_zero (compare v z)) y (merge_ranges compare (x ∷ l) r),
      ))

  -- The merge keeps each class, the left list's elements first.
  merge-class :
      (v : A) (l r : List A)
      → Ascends compare l
      → class compare v (merge_ranges compare l r) ≡ class compare v l ++ class compare v r
  merge-class v [] r _ = unfold merge_ranges in rw keep-nil
  merge-class v (x ∷ l) [] _ = unfold merge_ranges in rw keep-nil (sym (append-nil _))
  merge-class v (x ∷ l) (y ∷ r) (bx, sl) = elim (Bool-cases (is_pos (compare x y))) [
    | inr le ↦ merge-class_left v x y l r le (merge-class v l (y ∷ r) sl)
    | inl gt ↦ merge-class_right v x y l r gt bx (merge-class v (x ∷ l) r (bx, sl))
  ]

  Ascends-short : (l : List A) → length l < 2 → Ascends compare l
  Ascends-short [] h = tt
  Ascends-short (x ∷ []) h = (tt, tt)
  Ascends-short (x ∷ y ∷ l) h = absurd (omega arith)

  range-IsStableSort :
      (fuel : ℕ) (items : List A)
      → length items ≤ fuel
      → IsStableSort compare items (merge_sort_range compare fuel items)
  unfolding merge_sort_range
  range-IsStableSort zero items h = record {
    ascends = Ascends-short items (omega arith);
    classes = λ v. refl;
  }
  range-IsStableSort (suc fuel) items h = elim (Bool-cases (ltb (length items) 2)) [
    | inl short ↦
        rw short (record { ascends = Ascends-short items (ltb→lt _ _ short); classes = λ v. refl })
    | inr long ↦
        let mid = length items / 2 in
        let two = ltb→le (length items) 2 long in
        let left =
          range-IsStableSort fuel (take mid items) (omega (arith, length-take mid items)) in
        let right =
          range-IsStableSort fuel (drop mid items) (omega (arith, length-drop mid items)) in
        rw long (record {
          ascends = merge-Ascends _ _ left.ascends right.ascends;
          classes = λ v.
              merge-class v _ _ left.ascends
              ∙ ap₂ ◌++◌ (left.classes v) (right.classes v)
              ∙ sym (keep-append (λ z. is_zero (compare v z)) (take mid items) (drop mid items))
              ∙ ap (class compare v) (take-append-drop mid items);
        })
  ]

  -- For every comparison function that is a total preorder, `scalar_sort` returns an ascending
  -- list that holds each class of equal lines in input order.
  pub scalar_sort-IsStableSort :
      (items : List A) → IsStableSort compare items (scalar_sort compare items)
  unfolding scalar_sort
  scalar_sort-IsStableSort items = elim (Bool-cases (ltb (length items) 2)) [
    | inl short ↦
        rw short (record { ascends = Ascends-short items (ltb→lt _ _ short); classes = λ v. refl })
    | inr long ↦ rw long (range-IsStableSort (length items) items (omega arith))
  ]
