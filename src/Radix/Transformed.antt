-- ===== src/Radix/Transformed.antt =====
-- `rank_radix_sort_transformed_lines` and `rank_radix_sort_transformed_key` of src/radix.c. `none` is the
-- return of `false`; `aux` is the fresh array, whatever it holds; the statistics are left out.
pub mod Laws
use Prim.Native.Nat.{ℕ, zero, suc, ◌+◌}
use rank.Base.{
  Bool, true, false, not, ◌&&◌, ◌||◌, Option, none, some, List, [], ◌∷◌, is_zero, leb, ◌==◌,
  if◌then◌else◌, length,
}
use rank.Options.{Options}
use rank.Line.{Line}
use rank.Cmp.{TransformedSpan}
use rank.Radix.{
  compare_from_depth, compare_transformed_from_depth, compare_transformed_key_from_depth,
}
use rank.Radix.Range.{line_radix_range, transformed_radix_range, transformed_key_radix_range}
use rank.Radix.Groups.{sort_groups, compact_transformed_line_groups}

module _ (options : Options) where
  module _ (line_transform : Line → TransformedSpan) where
    abbrev pub all_valid : List Line → Bool
    all_valid [] = true
    all_valid (line ∷ items) = (line_transform line).valid && all_valid items

    unfoldable pub transformed_line_same : Line → Line → Bool
    unfolding compare_from_depth
    transformed_line_same a b = is_zero (compare_transformed_from_depth line_transform 0 a b)

    unfoldable pub sort_transformed_line_equal_groups_original : List Line → List Line
    unfolding sort_groups transformed_line_same line_radix_range
    sort_transformed_line_equal_groups_original items =
        sort_groups transformed_line_same (λ group. line_radix_range 0 group group) items

    -- From the check of the transforms on.
    unfoldable pub sort_transformed_lines : List Line → List Line → Option (List Line)
    unfolding transformed_radix_range sort_transformed_line_equal_groups_original
        compact_transformed_line_groups transformed_line_same
    sort_transformed_lines items aux =
        let sorted = transformed_radix_range line_transform 0 items aux in
        if not (all_valid items)
        then none
        else if not options.stable && not options.unique
        then some (sort_transformed_line_equal_groups_original sorted)
        else if options.unique && options.reverse
        then some (compact_transformed_line_groups transformed_line_same sorted)
        else some sorted

  unfoldable pub rank_radix_sort_transformed_lines :
      Option (ℕ → TransformedSpan) → List Line → List Line → Option (List Line)
  unfolding sort_transformed_lines
  rank_radix_sort_transformed_lines line_transforms items aux =
      if leb (length items) 1 then some items else elim line_transforms [
        | none ↦ none
        | some transforms ↦ sort_transformed_lines (λ line. transforms line.ordinal) items aux
      ]

  module _ (key_transforms : ℕ → TransformedSpan)
      (line_transforms : Option (ℕ → TransformedSpan)) where
    -- The tests of the loop over the lines.
    abbrev pub key_valid : Line → Bool
    key_valid line =
        (key_transforms line.key_index).valid
        && (options.stable || elim line_transforms [
          | none ↦ true
          | some transforms ↦ (transforms line.ordinal).valid
        ])

    abbrev pub all_keys_valid : List Line → Bool
    all_keys_valid [] = true
    all_keys_valid (line ∷ items) = key_valid line && all_keys_valid items

    unfoldable pub transformed_key_same : Line → Line → Bool
    unfolding compare_from_depth
    transformed_key_same a b = is_zero (compare_transformed_key_from_depth key_transforms 0 a b)

    -- `sort_transformed_key_equal_groups` and `sort_transformed_key_equal_groups_raw`
    unfoldable pub sort_transformed_key_equal_groups : List Line → List Line
    unfolding sort_groups transformed_key_same transformed_radix_range line_radix_range
    sort_transformed_key_equal_groups items = elim line_transforms [
      | some transforms ↦
          sort_groups transformed_key_same
            (λ group. transformed_radix_range (λ line. transforms line.ordinal) 0 group group) items
      | none ↦ sort_groups transformed_key_same (λ group. line_radix_range 0 group group) items
    ]

    unfoldable pub sort_transformed_key : List Line → List Line → Option (List Line)
    unfolding transformed_key_radix_range sort_transformed_key_equal_groups
    sort_transformed_key items aux =
        let sorted = transformed_key_radix_range key_transforms 0 items aux in
        if not (all_keys_valid items)
        then none
        else some (if not options.stable then sort_transformed_key_equal_groups sorted else sorted)

  unfoldable pub rank_radix_sort_transformed_key :
      Option (ℕ → TransformedSpan)
      → Option (ℕ → TransformedSpan)
      → List Line
      → List Line
      → Option (List Line)
  unfolding sort_transformed_key
  rank_radix_sort_transformed_key key_transforms line_transforms items aux =
      if leb (length items) 1
      then some items
      else if not (length options.keys == 1)
      then none
      else elim key_transforms [
        | none ↦ none
        | some transforms ↦ sort_transformed_key transforms line_transforms items aux
      ]
