-- ===== src/Sort/Scalar.antt =====
-- `scalar_sort_lines`, `merge_sort_range` and `merge_ranges` of src/sort.c, over any comparison
-- function. A range `items[lo..hi)` is the list of its elements: each call reads and writes only
-- its own range of `items` and `aux`, and copies the whole of it back before it returns.
pub mod Laws
use Prim.Native.Nat.{ℕ, zero, suc, ◌/◌}
use rank.Base.{
  Bool, true, false, not, List, [], ◌∷◌, ℤ, is_pos, ltb, if◌then◌else◌, length, take, drop,
}

module _ {ℓ} {A : Type ℓ} (compare : A → A → ℤ) where
  -- The three `while` loops: `left` is `items[left..mid)`, `right` is `items[right..hi)`, and the
  -- result is what is written to `aux` and copied back.
  unfoldable pub merge_ranges : (left right : List A) → List A
  merge_ranges [] right = right
  merge_ranges (x ∷ left) [] = x ∷ left
  merge_ranges (x ∷ left) (y ∷ right) = elim (is_pos (compare x y)) [
    | false ↦ x ∷ merge_ranges left (y ∷ right)
    | true ↦ y ∷ merge_ranges (x ∷ left) right
  ]

  -- The recursion on the range; the fuel is at least its length.
  unfoldable pub merge_sort_range : ℕ → List A → List A
  unfolding merge_ranges
  merge_sort_range zero items = items
  merge_sort_range (suc fuel) items =
      let mid = length items / 2 in
      let sorted =
        merge_ranges (merge_sort_range fuel (take mid items))
          (merge_sort_range fuel (drop mid items)) in
      if ltb (length items) 2 then items else sorted

  unfoldable pub scalar_sort : List A → List A
  unfolding merge_sort_range
  scalar_sort items =
      let sorted = merge_sort_range (length items) items in
      if ltb (length items) 2 then items else sorted
