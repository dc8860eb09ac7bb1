-- ===== src/Tests/Radix.antt =====
-- The theorems on the radix sorts at concrete inputs.
use Prim.Native.Nat.{ℕ, zero, suc, ◌+◌}
use rank.Base.{◌≡◌, refl, true, false, some, List, [], ◌∷◌, arith, codes, Bytes, All}
use rank.Options.{Options}
use rank.Line.{Line}
use rank.Cmp.{TransformedSpan, Caches, rank_compare_lines}
use rank.Plan.{rank_plan_from_options, radix_keys}
use rank.Records.{Lines, no_lines}
use rank.Records.Turned.{output}
use rank.Sort.Stable.{IsStableSort}
use rank.Sort.Scalar.{scalar_sort}
use rank.Radix.Ranges.{behind}
use rank.Radix.Range.{line_radix_range}
use rank.Radix.Range.Buckets.{IsByte}
use rank.Radix.Range.Laws.{line_radix_range-IsStableSort}
use rank.Radix.Keys.{key_range}
use rank.Radix.Keys.Reversed.{reverse_onto, key_range-reversed}
use rank.Radix.Groups.Laws.{both}
use rank.Radix.KeySort.{rank_radix_sort_key}
use rank.Radix.KeySort.Laws.{order_from, LineBytes}
use rank.Radix.KeySort.Refines.{rank_radix_sort_key-IsStableSort, rank_radix_sort_key-scalar_sort}
use rank.Radix.Transformed.{rank_radix_sort_transformed_lines, rank_radix_sort_transformed_key}
use rank.Radix.Transformed.Laws.{
  by_text, transform_bytes, key_bytes, key_last, rank_radix_sort_transformed_lines-IsStableSort,
  rank_radix_sort_transformed_key-IsStableSort,
}
use rank.Tests.{toy, second_field, c_locale}
use rank.Tests.Sorting.{toy_caches, byte_options, line_at}

abbrev spans : ℕ → Bytes
spans zero = codes "b"
spans (suc i) = codes "a"

spans_bytes : (i : ℕ) → All IsByte (spans i)
spans_bytes zero = (omega arith, tt)
spans_bytes (suc i) = (omega arith, tt)

abbrev span_caches : Caches toy
span_caches = record toy_caches { key_spans = spans }

abbrev plain_options : Options
plain_options = record (byte_options (second_field ∷ [])) { reverse = false }

abbrev three : List Line
three = line_at (codes "x b") 0 ∷ line_at (codes "y a") 1 ∷ line_at (codes "x a") 2 ∷ []

abbrev input : Lines
input = record no_lines { items = three }

input_bytes : All (LineBytes toy plain_options span_caches) three
input_bytes = (
  ((omega arith, (omega arith, (omega arith, tt))), λ k. spans_bytes (0 + k)),
  (
    ((omega arith, (omega arith, (omega arith, tt))), λ k. spans_bytes (1 + k)),
    (((omega arith, (omega arith, (omega arith, tt))), λ k. spans_bytes (2 + k)), tt),
  ),
)

rank_radix_sort_key-IsStableSort_example :
    IsStableSort
      (order_from toy plain_options span_caches (second_field ∷ []) 0)
      three
      (output (rank_radix_sort_key toy plain_options span_caches input three))
rank_radix_sort_key-IsStableSort_example =
    rank_radix_sort_key-IsStableSort toy plain_options span_caches input three second_field [] refl
      refl (refl, tt) input_bytes refl refl

rank_radix_sort_key-scalar_sort_example :
    output (rank_radix_sort_key toy plain_options span_caches input three)
    ≡ scalar_sort (rank_compare_lines toy c_locale plain_options span_caches) three
rank_radix_sort_key-scalar_sort_example =
    rank_radix_sort_key-scalar_sort toy c_locale plain_options span_caches false input three
      second_field [] chosen refl refl refl refl (refl, tt) input_bytes refl refl
  where
    chosen : (rank_plan_from_options false true plain_options).kind ≡ radix_keys
    chosen = unfold rank_plan_from_options in refl

line_radix_range-IsStableSort_example :
    IsStableSort (behind (λ (l : Line). l.text) 1) three (line_radix_range 1 three three)
line_radix_range-IsStableSort_example =
    line_radix_range-IsStableSort 1 three three (omega arith, (omega arith, (omega arith, tt)))
      (
        (omega arith, (omega arith, (omega arith, tt))),
        (
          (omega arith, (omega arith, (omega arith, tt))),
          ((omega arith, (omega arith, (omega arith, tt))), tt),
        ),
      )
      refl

abbrev last_options : Options
last_options = record plain_options { stable = false; unique = false }

abbrev transforms : ℕ → TransformedSpan
transforms i = record { bytes = spans i; valid = true }

transform_spans :
    All
      (λ (l : Line). All IsByte (transform_bytes last_options transforms three three refl l))
      three
transform_spans = (spans_bytes 0, (spans_bytes 1, (spans_bytes 2, tt)))

rank_radix_sort_transformed_lines-IsStableSort_example :
    (out : List Line) × (rank_radix_sort_transformed_lines last_options
        (some transforms)
        three
        three
      ≡ some out)
    × IsStableSort
        (both
          (by_text (transform_bytes last_options transforms three three refl))
          (by_text (λ (l : Line). l.text)))
        three
        out
rank_radix_sort_transformed_lines-IsStableSort_example =
    rank_radix_sort_transformed_lines-IsStableSort last_options transforms three three refl refl
      refl refl transform_spans
      (
        (omega arith, (omega arith, (omega arith, tt))),
        (
          (omega arith, (omega arith, (omega arith, tt))),
          ((omega arith, (omega arith, (omega arith, tt))), tt),
        ),
      )

rank_radix_sort_transformed_key-IsStableSort_example :
    (out : List Line) × (rank_radix_sort_transformed_key last_options
        (some transforms)
        (some transforms)
        three
        three
      ≡ some out)
    × IsStableSort
        (both
          (by_text (key_bytes last_options transforms three three refl))
          (by_text (key_last last_options transforms three three refl (some transforms))))
        three
        out
rank_radix_sort_transformed_key-IsStableSort_example =
    rank_radix_sort_transformed_key-IsStableSort last_options transforms three three refl
      (some transforms) refl refl refl refl transform_spans transform_spans

-- 50 items with the key `a`, told apart by their numbers.
abbrev numbered : ℕ → List ℕ
numbered zero = []
numbered (suc n) = n ∷ numbered n

abbrev key_of : ℕ → Bytes
key_of item = codes "a"

All-same : (n : ℕ) → All (λ item. key_of item ≡ codes "a") (numbered n)
All-same zero = tt
All-same (suc n) = (refl, All-same n)

key_range-reversed_example :
    key_range key_of true 4096 0 (numbered 50) (numbered 50) ≡ reverse_onto (numbered 50) []
key_range-reversed_example =
    key_range-reversed key_of (codes "a") 4095 0 (numbered 50) (numbered 50) (omega arith)
      (omega arith) (omega arith) (All-same 50)
