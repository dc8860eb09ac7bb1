-- ===== src/Sort/Append.antt =====
-- Stable sorts of a list in parts, and what a stable sort keeps.
use Prim.Native.Nat.{ℕ, zero, suc, ◌+◌, ◌/◌}
use mathlib.Core.Path.{subst}
use rank.Base.{
  ◌⊎◌, ◌≡◌, refl, sym, ap, ap₂, ◌∙◌, true, false, inl, inr, Bool-cases, List, [], ◌∷◌, ◌++◌, arith,
  ℤ, is_zero, length, take, drop, length-take, length-drop, IsOrder, cmp_self, All, All-append,
  All-map_imp, keep-cons, keep-append, All-keep,
}
use rank.Sort.Stable.{IsLe, Ascends, class, SameClasses, IsStableSort}
use rank.Sort.Unique.{IsStableSort-unique}
use rank.Sort.Scalar.{merge_ranges, merge_sort_range, scalar_sort}
use rank.Sort.Scalar.Laws.{scalar_sort-IsStableSort}

module _ {ℓ} {A : Type ℓ} (compare : A → A → ℤ) where
  length-merge_ranges : (l r : List A) → length (merge_ranges compare l r) ≡ length l + length r
  unfolding merge_ranges
  length-merge_ranges [] r = omega arith
  length-merge_ranges (x ∷ l) [] = omega arith
  length-merge_ranges (x ∷ l) (y ∷ r) =
      ground (arith, length-merge_ranges l (y ∷ r), length-merge_ranges (x ∷ l) r)

  length-merge_sort_range :
      (fuel : ℕ) (items : List A) → length (merge_sort_range compare fuel items) ≡ length items
  unfolding merge_sort_range
  length-merge_sort_range zero items = refl
  length-merge_sort_range (suc fuel) items =
      let mid = length items / 2 in
      let left = merge_sort_range compare fuel (take mid items) in
      let right = merge_sort_range compare fuel (drop mid items) in
      ground (
        arith,
        length-merge_ranges left right,
        length-merge_sort_range fuel (take mid items),
        length-merge_sort_range fuel (drop mid items),
        length-take mid items,
        length-drop mid items,
      )

  length-scalar_sort : (items : List A) → length (scalar_sort compare items) ≡ length items
  unfolding scalar_sort
  length-scalar_sort items = ground (arith, length-merge_sort_range (length items) items)

module _ {ℓ} {A : Type ℓ} {compare : A → A → ℤ} (o : IsOrder compare) where
  -- A stable sort keeps the number of elements,
  pub length-IsStableSort :
      {inp out : List A} → IsStableSort compare inp out → length out ≡ length inp
  length-IsStableSort {inp} {out} s =
      ap length (IsStableSort-unique o s (scalar_sort-IsStableSort o inp))
      ∙ length-scalar_sort compare inp

  All-classes {κ} :
      (P : A → Type κ) (out : List A) → ((v : A) → All P (class compare v out)) → All P out
  All-classes P [] h = tt
  All-classes P (y ∷ out) h =
      let own : class compare y (y ∷ out) ≡ y ∷ class compare y out =
        ground (arith, keep-cons (λ x. is_zero (compare y x)) y out, cmp_self o y) in
      (
        (subst (All P) own (h y)).0,
        All-classes P out (λ v. without v (Bool-cases (is_zero (compare v y)))),
      )
    where
      without :
          (v : A)
          → (is_zero (compare v y) ≡ true) ⊎ (is_zero (compare v y) ≡ false)
          → All P (class compare v out)
      without v (inl e) =
          let kept : class compare v (y ∷ out) ≡ y ∷ class compare v out =
            ground (arith, keep-cons (λ x. is_zero (compare v x)) y out) in
          (subst (All P) kept (h v)).1
      without v (inr n) =
          let kept : class compare v (y ∷ out) ≡ class compare v out =
            ground (arith, keep-cons (λ x. is_zero (compare v x)) y out) in
          subst (All P) kept (h v)

  -- and what holds of all elements.
  pub All-IsStableSort {κ} :
      (P : A → Type κ) {inp out : List A} → IsStableSort compare inp out → All P inp → All P out
  All-IsStableSort P {inp} {out} s h =
      All-classes P out
        (λ v. subst (All P) (sym (s.classes v)) (All-keep P (λ x. is_zero (compare v x)) inp h))

  Ascends-append :
      (xs ys : List A)
      → Ascends compare xs
      → Ascends compare ys
      → All (λ x. All (IsLe compare x) ys) xs
      → Ascends compare (xs ++ ys)
  Ascends-append [] ys s t h = t
  Ascends-append (x ∷ xs) ys (b, s) t (p, h) =
      (All-append (IsLe compare x) xs ys b p, Ascends-append xs ys s t h)

  -- Lists of which each element of one is at most each of the other are sorted one behind the other.
  pub IsStableSort-append :
      {xs xs' ys ys' : List A}
      → IsStableSort compare xs xs'
      → IsStableSort compare ys ys'
      → All (λ x. All (IsLe compare x) ys) xs
      → IsStableSort compare (xs ++ ys) (xs' ++ ys')
  IsStableSort-append {xs} {xs'} {ys} {ys'} s t h = record {
    ascends = Ascends-append xs' ys' s.ascends t.ascends (
        All-IsStableSort (λ x. All (IsLe compare x) ys') s
          (All-map_imp (λ x. All (IsLe compare x) ys) (λ x. All (IsLe compare x) ys')
            (λ x below. All-IsStableSort (IsLe compare x) t below) xs h));
    classes = λ v.
        let p = λ (x : A). is_zero (compare v x) in
        keep-append p xs' ys' ∙ ap₂ ◌++◌ (s.classes v) (t.classes v) ∙ sym (keep-append p xs ys);
  }

  -- What comes first may order the elements otherwise, if it keeps the classes.
  pub IsStableSort-of_classes :
      {xs mid ys : List A}
      → SameClasses compare mid xs
      → IsStableSort compare mid ys
      → IsStableSort compare xs ys
  IsStableSort-of_classes c s = record { ascends = s.ascends; classes = λ v. s.classes v ∙ c v }
