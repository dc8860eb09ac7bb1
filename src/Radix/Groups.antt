-- ===== src/Radix/Groups.antt =====
-- The passes of src/radix.c over groups of equal items: the loops of `sort_next_key_groups`,
-- `sort_line_last_resort_groups` and the transformed variants, and the tests for monotonic ranges.
pub mod Laws
pub mod Monotonic
use Prim.Native.Nat.{ℕ, zero, suc, ◌+◌}
use rank.Base.{
  Bool, true, false, not, ◌&&◌, ◌||◌, Option, none, some, List, [], ◌∷◌, ◌++◌, ℤ, is_pos, is_zero,
  leb, if◌then◌else◌, length,
}

module _ {ℓ} {A : Type ℓ} where
  -- `if (i - start > 1)`
  abbrev pub sort_group : (List A → List A) → List A → List A
  sort_group sort g = if leb (length g) 1 then g else sort g

  -- The loop over `i`: `start` and the items of its group behind it, and the items from `i` on.
  unfoldable pub group_loop : (A → A → Bool) → (List A → List A) → A → List A → List A → List A
  group_loop same sort start group [] = sort_group sort (start ∷ group)
  group_loop same sort start group (item ∷ items) = elim (same start item) [
    | true ↦ group_loop same sort start (group ++ (item ∷ [])) items
    | false ↦ sort_group sort (start ∷ group) ++ group_loop same sort item [] items
  ]

  unfoldable pub sort_groups : (A → A → Bool) → (List A → List A) → List A → List A
  unfolding group_loop
  sort_groups same sort [] = []
  sort_groups same sort (start ∷ items) = group_loop same sort start [] items

  -- The last item of a range, and the range in front of it.
  abbrev pub last_item : A → List A → A
  last_item x [] = x
  last_item x (y ∷ items) = last_item y items

  abbrev pub front_items : A → List A → List A
  front_items x [] = []
  front_items x (y ∷ items) = x ∷ front_items y items

  -- `reverse_line_range`: swap the ends, then go on between them; the fuel is at least the length.
  unfoldable pub reverse_line_range : ℕ → List A → List A
  reverse_line_range zero items = items
  reverse_line_range (suc fuel) [] = []
  reverse_line_range (suc fuel) (x ∷ []) = x ∷ []
  reverse_line_range (suc fuel) (x ∷ y ∷ items) =
      last_item y items ∷ (reverse_line_range fuel (front_items y items) ++ (x ∷ []))

  -- The loop of `maybe_use_key_range_monotonic` and of `maybe_use_key_monotonic` with the flags
  -- `ascending` and `strictly_descending`: `none` is the return of `false`, else the second flag.
  unfoldable pub monotonic_loop : (A → A → ℤ) → Bool → Bool → A → List A → Option Bool
  monotonic_loop compare ascending strictly_descending previous [] = some strictly_descending
  monotonic_loop compare ascending strictly_descending previous (item ∷ items) =
      let cmp = compare previous item in
      let up = ascending && not (is_pos cmp) in
      let down = strictly_descending && is_pos cmp in
      let rest = monotonic_loop compare up down item items in
      if not up && not down then none else rest

  -- On an empty range the loop does not run.
  unfoldable pub is_monotonic : (A → A → ℤ) → List A → Option Bool
  unfolding monotonic_loop
  is_monotonic compare [] = some true
  is_monotonic compare (first ∷ items) = monotonic_loop compare true true first items

  unfoldable pub maybe_use_key_range_monotonic : (A → A → ℤ) → List A → Option (List A)
  unfolding is_monotonic reverse_line_range
  maybe_use_key_range_monotonic compare items = elim (is_monotonic compare items) [
    | none ↦ none
    | some true ↦ some (reverse_line_range (length items) items)
    | some false ↦ some items
  ]

  -- `compact_transformed_line_groups`: `last` is `items[out - 1]`.
  unfoldable pub compact_loop : (A → A → Bool) → A → List A → List A
  compact_loop same last [] = []
  compact_loop same last (item ∷ items) = elim (same last item) [
    | true ↦ compact_loop same last items
    | false ↦ item ∷ compact_loop same item items
  ]

  unfoldable pub compact_transformed_line_groups : (A → A → Bool) → List A → List A
  unfolding compact_loop
  compact_transformed_line_groups same [] = []
  compact_transformed_line_groups same (item ∷ items) = item ∷ compact_loop same item items
