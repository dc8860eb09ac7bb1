-- ===== src/Radix/Range.antt =====
-- The radix sorts of src/radix.c on lines, on the lines' transforms and on the first keys' transforms:
-- `line_radix_range`, `transformed_radix_range` and `transformed_key_radix_range`. The statistics are
-- left out.
pub mod Buckets
pub mod Laws
use Prim.Native.Nat.{ℕ, zero, suc, ◌+◌}
use rank.Base.{Bool, true, false, ◌||◌, List, [], ◌∷◌, leb, if◌then◌else◌, length, drop, Bytes}
use rank.Line.{Line}
use rank.Cmp.{TransformedSpan}
use rank.Radix.{compare_from_depth, insertion_sort}
use rank.Radix.Scatter.{radix_pass}

-- `RADIX_INSERTION_THRESHOLD` and `RADIX_DEPTH_LIMIT`
abbrev pub insertion_threshold : ℕ
insertion_threshold = 24

abbrev pub depth_limit : ℕ
depth_limit = 4096

abbrev pub byte_bucket : Bytes → ℕ
byte_bucket [] = 0
byte_bucket (c ∷ text) = c + 1

-- `full_line_bucket`, of the text that a bucket function reads: 0 behind its end, else the byte
-- plus 1.
abbrev pub text_bucket : ℕ → Bytes → ℕ
text_bucket depth text = byte_bucket (drop depth text)

module _ {ℓ} {A : Type ℓ} (text : A → Bytes) where
  -- The three sorts, over the text of an item. The fuel is at least what is left to the depth limit.
  -- A call writes its own part of `aux` only, and that part holds the bucket that it is called on.
  unfoldable pub radix_range : ℕ → ℕ → List A → List A → List A
  unfolding insertion_sort radix_pass compare_from_depth
  radix_range zero depth items aux =
      insertion_sort (λ a b. compare_from_depth depth (text a) (text b)) items
  radix_range (suc fuel) depth items aux =
      elim (leb (length items) insertion_threshold || leb depth_limit depth) [
        | true ↦ insertion_sort (λ a b. compare_from_depth depth (text a) (text b)) items
        | false ↦
            radix_pass (λ x. text_bucket depth (text x)) (λ r. radix_range fuel (suc depth) r r)
              items aux
      ]

unfoldable pub line_radix_range : ℕ → List Line → List Line → List Line
unfolding radix_range
line_radix_range depth items aux = radix_range (λ (l : Line). l.text) depth_limit depth items aux

unfoldable pub transformed_radix_range :
    (Line → TransformedSpan) → ℕ → List Line → List Line → List Line
unfolding radix_range
transformed_radix_range line_transform depth items aux =
    radix_range (λ l. (line_transform l).bytes) depth_limit depth items aux

unfoldable pub transformed_key_radix_range :
    (ℕ → TransformedSpan) → ℕ → List Line → List Line → List Line
unfolding radix_range
transformed_key_radix_range key_transforms depth items aux =
    radix_range (λ (l : Line). (key_transforms l.key_index).bytes) depth_limit depth items aux
