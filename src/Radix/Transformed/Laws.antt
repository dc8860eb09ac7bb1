-- ===== src/Radix/Transformed/Laws.antt =====
-- The radix sorts of src/radix.c on transforms sort by the transforms and then by the last resort.
use Prim.Native.Nat.{ℕ}
use mathlib.Core.Path.{subst}
use rank.Base.{
  ◌≡◌, refl, sym, true, false, not, ◌&&◌, ◌||◌, Option, none, some, List, arith, ℤ, is_zero, ◌==◌,
  leb, length, All, IsOrder, IsOrder-on, Bytes,
}
use rank.Options.{Options}
use rank.Line.{Line}
use rank.Cmp.{TransformedSpan}
use rank.Locale.Lex.{lex, lex-IsOrder}
use rank.Sort.Stable.{IsStableSort}
use rank.Sort.Append.{All-IsStableSort}
use rank.Radix.{compare_from_depth}
use rank.Radix.Ranges.{compare_from_depth-lex}
use rank.Radix.Range.{
  depth_limit, radix_range, line_radix_range, transformed_radix_range, transformed_key_radix_range,
}
use rank.Radix.Range.Laws.{HasBytes, radix_range-IsStableSort}
use rank.Radix.Keys.Laws.{All-reach}
use rank.Radix.Groups.{sort_groups}
use rank.Radix.Groups.Laws.{both, IsStableSort-refine, sort_groups-IsStableSort}
use rank.Radix.Transformed.{
  all_valid, transformed_line_same, sort_transformed_line_equal_groups_original,
  sort_transformed_lines, rank_radix_sort_transformed_lines, all_keys_valid, transformed_key_same,
  sort_transformed_key_equal_groups, sort_transformed_key, rank_radix_sort_transformed_key,
}

module _ {ℓ} {A : Type ℓ} where
  -- The order of a text.
  abbrev pub by_text : (A → Bytes) → A → A → ℤ
  by_text text a b = lex (text a) (text b)

  by_text-IsOrder : (text : A → Bytes) → IsOrder (by_text text)
  by_text-IsOrder text = IsOrder-on text lex-IsOrder

  radix_range-by_text :
      (text : A → Bytes) (items aux : List A)
      → All (HasBytes text) items
      → length aux ≡ length items
      → IsStableSort (by_text text) items (radix_range text depth_limit 0 items aux)
  radix_range-by_text text items aux h e =
      radix_range-IsStableSort text depth_limit 0 items aux (All-reach text items) h e

  -- A radix sort by one text, and one of the groups that it leaves by another.
  two_passes-IsStableSort :
      (first second : A → Bytes) (items aux : List A)
      → All (HasBytes first) items
      → All (HasBytes second) items
      → length aux ≡ length items
      → IsStableSort (both (by_text first) (by_text second)) items (
          sort_groups
            (λ a b. is_zero (compare_from_depth 0 (first a) (first b)))
            (λ g. radix_range second depth_limit 0 g g)
            (radix_range first depth_limit 0 items aux))
  two_passes-IsStableSort first second items aux h k e =
      let mid = radix_range first depth_limit 0 items aux in
      let s = radix_range-by_text first items aux h e in
      let same : (λ (a : A) (b : A). compare_from_depth 0 (first a) (first b)) ≡ by_text first =
        λ i a b. compare_from_depth-lex 0 (first a) (first b) (omega arith) (omega arith) i in
      IsStableSort-refine (by_text first) (by_text second) s (
        subst
          (λ c.
            IsStableSort (both (by_text first) (by_text second)) mid (
              sort_groups (λ a b. is_zero (c a b)) (λ g. radix_range second depth_limit 0 g g) mid))
          (sym same)
          (sort_groups-IsStableSort (by_text-IsOrder first) (by_text-IsOrder second)
            (HasBytes second) (λ g. radix_range second depth_limit 0 g g)
            (λ g b. radix_range-by_text second g g b refl) mid s.ascends
            (All-IsStableSort (by_text-IsOrder first) (HasBytes second) s k)))

abbrev line_bytes : Line → Bytes
line_bytes line = line.text

module _ (options : Options) (transforms : ℕ → TransformedSpan) (items aux : List Line)
    (len : length aux ≡ length items) where
  abbrev pub transform_bytes : Line → Bytes
  transform_bytes line = (transforms line.ordinal).bytes

  abbrev pub key_bytes : Line → Bytes
  key_bytes line = (transforms line.key_index).bytes

  -- On two lines or more, of bytes, whose transforms are all valid and hold bytes,
  -- `rank_radix_sort_transformed_lines` with any fresh array of their number returns, without `-s` and
  -- `-u`, a stable sort by the bytes of the transforms and then by those of the lines.
  pub rank_radix_sort_transformed_lines-IsStableSort :
      leb (length items) 1 ≡ false
      → all_valid options (λ line. transforms line.ordinal) items ≡ true
      → (options.stable || options.unique) ≡ false
      → All (HasBytes transform_bytes) items
      → All (HasBytes line_bytes) items
      → (out : List Line) × (rank_radix_sort_transformed_lines options (some transforms) items aux
          ≡ some out)
        × IsStableSort (both (by_text transform_bytes) (by_text line_bytes)) items out
  unfolding rank_radix_sort_transformed_lines sort_transformed_lines
      sort_transformed_line_equal_groups_original transformed_line_same transformed_radix_range
      line_radix_range
  rank_radix_sort_transformed_lines-IsStableSort many valid last h k =
      let goes : (not options.stable && not options.unique) ≡ true = ground arith in
      (
        sort_transformed_line_equal_groups_original options (λ line. transforms line.ordinal)
            (transformed_radix_range (λ line. transforms line.ordinal) 0 items aux),
        rw (many, valid, goes) refl,
        two_passes-IsStableSort transform_bytes line_bytes items aux h k len,
      )

  -- The order of the last resort behind the key.
  abbrev pub key_last : Option (ℕ → TransformedSpan) → Line → Bytes
  key_last none line = line.text
  key_last (some lines) line = (lines line.ordinal).bytes

  -- On two lines or more, with one key and valid transforms, and with bytes in all texts that are
  -- compared, `rank_radix_sort_transformed_key` with any fresh array of their number returns, without
  -- `-s`, a stable sort by the bytes of the key's transforms and then by those of the lines'
  -- transforms, or of the lines where these have none.
  pub rank_radix_sort_transformed_key-IsStableSort :
      (line_transforms : Option (ℕ → TransformedSpan))
      → leb (length items) 1 ≡ false
      → (length options.keys == 1) ≡ true
      → all_keys_valid options transforms line_transforms items ≡ true
      → options.stable ≡ false
      → All (HasBytes key_bytes) items
      → All (HasBytes (key_last line_transforms)) items
      → (out : List Line) × (rank_radix_sort_transformed_key options
            (some transforms)
            line_transforms
            items
            aux
          ≡ some out)
        × IsStableSort (both (by_text key_bytes) (by_text (key_last line_transforms))) items out
  unfolding rank_radix_sort_transformed_key sort_transformed_key sort_transformed_key_equal_groups
      transformed_key_same transformed_key_radix_range transformed_radix_range line_radix_range
  rank_radix_sort_transformed_key-IsStableSort none many one valid last h k = (
    sort_transformed_key_equal_groups options transforms none
        (transformed_key_radix_range transforms 0 items aux),
    rw (many, one, valid, last) refl,
    two_passes-IsStableSort key_bytes line_bytes items aux h k len,
  )
  rank_radix_sort_transformed_key-IsStableSort (some lines) many one valid last h k = (
    sort_transformed_key_equal_groups options transforms (some lines)
        (transformed_key_radix_range transforms 0 items aux),
    rw (many, one, valid, last) refl,
    two_passes-IsStableSort key_bytes (key_last (some lines)) items aux h k len,
  )
