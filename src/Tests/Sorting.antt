-- ===== src/Tests/Sorting.antt =====
-- The theorems on insertion sorts, plans and monotonic input at concrete inputs.
use Prim.Native.Nat.{ℕ}
use rank.Base.{◌≡◌, refl, true, false, none, some, List, [], ◌∷◌, arith, codes, Bytes}
use rank.Numeric.{rank_numeric_parse, rank_numeric_compare}
use rank.Numeric.Value.{rank_numeric_compare-IsOrder}
use rank.Numeric.Long.{rank_general_numeric_parse}
use rank.Locale.Lex.{lex}
use rank.Sort.Stable.{IsStableSort}
use rank.Key.{KeyDef, byte}
use rank.Options.{Options}
use rank.Tests.{toy, unsorted, second_field, numeric_options, c_locale}
use Prim.Native.String.{String}
use rank.Base.{or_else, neg, pos, get_elem?}
use rank.Sort.Stable.{Ascends}
use rank.Key.{no_flags}
use rank.Line.{Line}
use rank.Cmp.{Caches, rank_compare_lines}
use rank.Radix.{insertion_sort}
use rank.Radix.Insertion.{insertion_sort-IsStableSort}
use rank.Plan.{rank_plan_from_options, radix_bytes, radix_keys}
use rank.Plan.Agrees.{rank_plan_from_options-bytes}
use rank.Plan.Keys.{span_order, rank_plan_from_options-keys}
use rank.Records.{Lines, no_lines, add_lines, maybe_use_monotonic_run, output_line_at}
use rank.Records.Monotonic.{IsRun, up, add_lines-IsRun}
use rank.Records.Turned.{output, maybe_use_monotonic_run-Ascends}
use rank.Records.Output.{output_line_at-output}

abbrev pub line_at : Bytes → ℕ → Line
line_at text i = record { text = text; ordinal = i; key_index = i }

insertion_sort-IsStableSort_example :
    IsStableSort rank_numeric_compare unsorted (insertion_sort rank_numeric_compare unsorted)
insertion_sort-IsStableSort_example =
    insertion_sort-IsStableSort rank_numeric_compare-IsOrder unsorted

-- Caches for lines of which every key span is the same text.
abbrev pub toy_caches : Caches toy
toy_caches = record {
  line_transforms = none;
  key_transforms = none;
  key_spans = λ i. i ∷ [];
  line_numbers = λ i. rank_numeric_parse [];
  key_numbers = λ i. rank_numeric_parse [];
  line_general_numbers = λ i. rank_general_numeric_parse toy [];
  key_general_numbers = λ i. rank_general_numeric_parse toy [];
  line_human_numbers = λ i. some 0;
  key_human_numbers = λ i. some 0;
  line_months = λ i. 0;
  key_months = λ i. 0;
  line_random = λ i j. 0;
  key_random = λ i j. 0;
}

abbrev pub byte_options : List KeyDef → Options
byte_options keys = record numeric_options { sort_mode = byte; mode_flags = no_flags; keys = keys }

rank_plan_from_options-bytes_example :
    rank_compare_lines toy c_locale
      (byte_options [])
      toy_caches
      (line_at (codes "a") 0)
      (line_at (codes "b") 1)
    ≡ neg (lex (codes "a") (codes "b"))
rank_plan_from_options-bytes_example =
    rank_plan_from_options-bytes toy c_locale (byte_options []) toy_caches false chosen refl
      (line_at (codes "a") 0) (line_at (codes "b") 1)
  where
    chosen : (rank_plan_from_options false true (byte_options [])).kind ≡ radix_bytes
    chosen = unfold rank_plan_from_options in refl

rank_plan_from_options-keys_example :
    rank_compare_lines toy c_locale
      (byte_options (second_field ∷ []))
      toy_caches
      (line_at (codes "a") 0)
      (line_at (codes "b") 1)
    ≡ or_else
        (span_order toy c_locale
          (byte_options (second_field ∷ []))
          toy_caches
          (second_field ∷ [])
          0
          (line_at (codes "a") 0)
          (line_at (codes "b") 1))
        (neg (lex (codes "a") (codes "b")))
rank_plan_from_options-keys_example =
    rank_plan_from_options-keys toy c_locale (byte_options (second_field ∷ [])) toy_caches false
      chosen refl refl (line_at (codes "a") 0) (line_at (codes "b") 1)
  where
    chosen :
        (rank_plan_from_options false true (byte_options (second_field ∷ []))).kind ≡ radix_keys
    chosen = unfold rank_plan_from_options in refl

abbrev falling : List Bytes
falling = codes "c" ∷ codes "b" ∷ codes "b" ∷ codes "a" ∷ []

add_lines-IsRun_example : IsRun (add_lines no_lines falling)
add_lines-IsRun_example = add_lines-IsRun no_lines falling (tt, tt)

abbrev line_of : String → ℕ → Line
line_of text i = record { text = codes text; ordinal = i; key_index = 0 }

abbrev fallen : Lines
fallen = record {
  items = line_of "c" 0 ∷ line_of "b" 1 ∷ line_of "b" 2 ∷ line_of "a" 3 ∷ [];
  output_reversed = true;
  monotonic_valid = true;
  monotonic_direction = pos 1;
}

maybe_use_monotonic_run-Ascends_example : Ascends up (output fallen)
maybe_use_monotonic_run-Ascends_example = maybe_use_monotonic_run-Ascends false falling fallen taken
  where
    taken : maybe_use_monotonic_run false (add_lines no_lines falling) ≡ some fallen
    taken = unfold maybe_use_monotonic_run in unfold add_lines in refl

output_line_at-output_example : output_line_at fallen 1 ≡ get_elem? (output fallen) 1
output_line_at-output_example = output_line_at-output fallen 1 (omega arith)
