-- ===== src/Radix.antt =====
-- src/radix.c: the parts of the radix sorts that compare bytes from a depth on, and the insertion
-- sort that small ranges fall back to. A `struct rank_radix_line`, a line, a line's transform and a
-- key's transform are all used through the text that they stand for.
pub mod Insertion
pub mod Ranges
pub mod Scatter
pub mod Range
pub mod Keys
pub mod Groups
pub mod KeySort
pub mod Transformed
use Prim.Native.Nat.{ℕ, zero, suc, ◌+◌, ◌-◌, ◌/◌}
use rank.Base.{
  Bool, true, false, not, ◌||◌, Option, none, some, List, [], ◌∷◌, ◌++◌, ℤ, pos, negsuc, is_neg,
  ltb, ◌==◌, if◌then◌else◌, length, get_elem?, take, drop, Bytes,
}
use rank.Line.{Line}
use rank.Cmp.{TransformedSpan}

-- The loop of `compare_from_depth` and the tests behind it, on what is left of both texts.
unfoldable pub depth_loop : Bytes → Bytes → ℤ
depth_loop [] [] = pos 0
depth_loop [] (y ∷ b) = negsuc 0
depth_loop (x ∷ a) [] = pos 1
depth_loop (x ∷ a) (y ∷ b) =
    let rest = depth_loop a b in if ltb x y then negsuc 0 else if ltb y x then pos 1 else rest

-- `compare_from_depth`: where a text ends before `depth` the loop does not run, and its position is
-- not at its end.
unfoldable pub compare_from_depth : ℕ → Bytes → Bytes → ℤ
unfolding depth_loop
compare_from_depth depth a b =
    let loop = depth_loop (drop depth a) (drop depth b) in
    if ltb (length a) depth
    then pos 1
    else if ltb (length b) depth
    then (if depth == length a then negsuc 0 else pos 1)
    else loop

-- The loop that moves the items behind `left` up by one, and the store.
abbrev pub insert_at {ℓ} : {A : Type ℓ} → ℕ → A → List A → List A
insert_at left line items = take left items ++ (line ∷ drop left items)

module _ {ℓ} {A : Type ℓ} (compare : A → A → ℤ) where
  -- `compare(&line, &items[mid]) < 0`
  abbrev pub is_below : A → Option A → Bool
  is_below line none = false
  is_below line (some item) = is_neg (compare line item)

  -- The binary search among the sorted items in front of `line`; the fuel is at least
  -- `right - left`. A read out of range does not happen.
  unfoldable pub find_place : ℕ → A → List A → ℕ → ℕ → ℕ
  find_place zero line items left right = left
  find_place (suc fuel) line items left right =
      let mid = left + (right - left) / 2 in
      let lower = find_place fuel line items left mid in
      let upper = find_place fuel line items (suc mid) right in
      let below = is_below line (get_elem? items mid) in
      if ltb left right then (if below then lower else upper) else left

  -- The loop over `i`: `items` are the sorted ones in front of it.
  unfoldable pub insertion_loop : List A → List A → List A
  unfolding find_place
  insertion_loop items [] = items
  insertion_loop items (line ∷ rest) =
      insertion_loop (insert_at (find_place (length items) line items 0 (length items)) line items)
        rest

  unfoldable pub insertion_sort : List A → List A
  unfolding insertion_loop
  insertion_sort [] = []
  insertion_sort (line ∷ rest) = insertion_loop (line ∷ []) rest

-- `insertion_range` of the line radix sort, where an item is the text that it locates.
unfoldable pub insertion_range : ℕ → List Bytes → List Bytes
unfolding insertion_sort compare_from_depth
insertion_range depth items = insertion_sort (compare_from_depth depth) items

abbrev pub compare_line_from_depth : ℕ → Line → Line → ℤ
compare_line_from_depth depth a b = compare_from_depth depth a.text b.text

unfoldable pub line_insertion_range : ℕ → List Line → List Line
unfolding insertion_sort compare_from_depth
line_insertion_range depth items = insertion_sort (compare_line_from_depth depth) items

module _ (line_transform : Line → TransformedSpan) where
  abbrev pub compare_transformed_from_depth : ℕ → Line → Line → ℤ
  compare_transformed_from_depth depth a b =
      compare_from_depth depth (line_transform a).bytes (line_transform b).bytes

  unfoldable pub transformed_insertion_range : ℕ → List Line → List Line
  unfolding insertion_sort compare_from_depth
  transformed_insertion_range depth items =
      insertion_sort (compare_transformed_from_depth depth) items

-- The same with the transform of the first key, `rank_line_key_transform(lines, line, 0)`.
module _ (key_transforms : ℕ → TransformedSpan) where
  abbrev pub compare_transformed_key_from_depth : ℕ → Line → Line → ℤ
  compare_transformed_key_from_depth depth a b =
      compare_from_depth depth (key_transforms a.key_index).bytes (key_transforms b.key_index).bytes

  unfoldable pub transformed_key_insertion_range : ℕ → List Line → List Line
  unfolding insertion_sort compare_from_depth
  transformed_key_insertion_range depth items =
      insertion_sort (compare_transformed_key_from_depth depth) items
