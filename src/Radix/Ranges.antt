-- ===== src/Radix/Ranges.antt =====
-- The insertion sorts of src/radix.c on a range of texts that agree up to a depth: `insertion_range`,
-- `line_insertion_range`, `transformed_insertion_range` and `transformed_key_insertion_range`.
use Prim.Native.Nat.{ℕ, zero, suc, ◌+◌, ◌-◌, ◌/◌, ◌≤◌}
use mathlib.Core.Path.{subst}
use rank.Base.{
  ◌≡◌, refl, sym, ap, List, [], ◌∷◌, arith, ℤ, is_neg, length, get_elem?, drop, IsOrder-on, All,
  Bytes,
}
use rank.Line.{Line}
use rank.Cmp.{TransformedSpan}
use rank.Locale.Lex.{lex, lex-IsOrder}
use rank.Sort.Stable.{IsStableSort}
use rank.Radix.{
  depth_loop, compare_from_depth, is_below, find_place, insert_at, insertion_loop, insertion_sort,
  line_insertion_range, transformed_insertion_range, transformed_key_insertion_range,
}
use rank.Radix.Insertion.{insert_at-All, insertion_sort-IsStableSort}

-- Two comparison functions that find the same items of a list smaller sort it in the same way.
module _ {ℓ} {A : Type ℓ} (c d : A → A → ℤ) (P : A → Type 0)
    (same : (x y : A) → P x → P y → is_neg (c x y) ≡ is_neg (d x y)) where
  is_below_same :
      (line : A) (xs : List A) (i : ℕ)
      → P line
      → All P xs
      → is_below c line (get_elem? xs i) ≡ is_below d line (get_elem? xs i)
  is_below_same line [] i p h = refl
  is_below_same line (x ∷ xs) zero p (q, h) = same line x p q
  is_below_same line (x ∷ xs) (suc i) p (q, h) = is_below_same line xs i p h

  find_place_same :
      (fuel : ℕ) (line : A) (xs : List A) (left right : ℕ)
      → P line
      → All P xs
      → find_place c fuel line xs left right ≡ find_place d fuel line xs left right
  unfolding find_place
  find_place_same zero line xs left right p h = refl
  find_place_same (suc fuel) line xs left right p h =
      let mid = left + (right - left) / 2 in
      rw
        (
          is_below_same line xs mid p h,
          find_place_same fuel line xs left mid p h,
          find_place_same fuel line xs (suc mid) right p h,
        )
        refl

  loop_same :
      (xs rest : List A)
      → All P xs
      → All P rest
      → insertion_loop c xs rest ≡ insertion_loop d xs rest
  unfolding insertion_loop
  loop_same xs [] h k = refl
  loop_same xs (line ∷ rest) h (p, k) =
      let i = find_place d (length xs) line xs 0 (length xs) in
      rw (find_place_same (length xs) line xs 0 (length xs) p h)
        (loop_same (insert_at i line xs) rest (insert_at-All P i line xs p h) k)

  pub insertion_sort_same : (xs : List A) → All P xs → insertion_sort c xs ≡ insertion_sort d xs
  unfolding insertion_sort
  insertion_sort_same [] h = refl
  insertion_sort_same (line ∷ rest) (p, k) = loop_same (line ∷ []) rest (p, tt) k

depth_loop-lex : (a b : Bytes) → depth_loop a b ≡ lex a b
unfolding depth_loop lex
depth_loop-lex [] [] = refl
depth_loop-lex [] (y ∷ b) = refl
depth_loop-lex (x ∷ a) [] = refl
depth_loop-lex (x ∷ a) (y ∷ b) = ground (arith, depth_loop-lex a b)

-- For texts that reach the depth, the comparison is the byte order of what is behind it.
pub compare_from_depth-lex :
    (depth : ℕ) (a b : Bytes)
    → depth ≤ length a
    → depth ≤ length b
    → compare_from_depth depth a b ≡ lex (drop depth a) (drop depth b)
unfolding compare_from_depth
compare_from_depth-lex depth a b h k = ground (arith, depth_loop-lex (drop depth a) (drop depth b))

module _ {ℓ} {A : Type ℓ} (text : A → Bytes) (depth : ℕ) where
  abbrev pub ReachesDepth : A → Type 0
  ReachesDepth x = depth ≤ length (text x)

  abbrev pub behind : A → A → ℤ
  behind a b = lex (drop depth (text a)) (drop depth (text b))

  pub range-IsStableSort :
      (items : List A)
      → All ReachesDepth items
      → IsStableSort behind items
          (insertion_sort (λ a b. compare_from_depth depth (text a) (text b)) items)
  range-IsStableSort items h =
      subst (IsStableSort behind items)
        (sym (
          insertion_sort_same (λ a b. compare_from_depth depth (text a) (text b)) behind
            ReachesDepth (λ x y p q. ap is_neg (compare_from_depth-lex depth (text x) (text y) p q))
            items h))
        (insertion_sort-IsStableSort (IsOrder-on (λ x. drop depth (text x)) lex-IsOrder) items)

-- On lines that all reach the depth, `line_insertion_range` is a stable sort by the bytes behind it.
pub line_insertion_range-IsStableSort :
    (depth : ℕ) (items : List Line)
    → All (ReachesDepth (λ (l : Line). l.text) depth) items
    → IsStableSort (behind (λ (l : Line). l.text) depth) items (line_insertion_range depth items)
unfolding line_insertion_range
line_insertion_range-IsStableSort depth items h =
    range-IsStableSort (λ (l : Line). l.text) depth items h

-- On lines whose transforms all reach the depth, `transformed_insertion_range` is a stable sort by
-- the bytes of the transforms behind it.
pub transformed_insertion_range-IsStableSort :
    (line_transform : Line → TransformedSpan) (depth : ℕ) (items : List Line)
    → All (ReachesDepth (λ (l : Line). (line_transform l).bytes) depth) items
    → IsStableSort
        (behind (λ (l : Line). (line_transform l).bytes) depth)
        items
        (transformed_insertion_range line_transform depth items)
unfolding transformed_insertion_range
transformed_insertion_range-IsStableSort line_transform depth items h =
    range-IsStableSort (λ (l : Line). (line_transform l).bytes) depth items h

-- On lines of which the first key's transform reaches the depth, `transformed_key_insertion_range` is
-- a stable sort by the bytes of these transforms behind it.
pub transformed_key_insertion_range-IsStableSort :
    (key_transforms : ℕ → TransformedSpan) (depth : ℕ) (items : List Line)
    → All (ReachesDepth (λ (l : Line). (key_transforms l.key_index).bytes) depth) items
    → IsStableSort
        (behind (λ (l : Line). (key_transforms l.key_index).bytes) depth)
        items
        (transformed_key_insertion_range key_transforms depth items)
unfolding transformed_key_insertion_range
transformed_key_insertion_range-IsStableSort key_transforms depth items h =
    range-IsStableSort (λ (l : Line). (key_transforms l.key_index).bytes) depth items h
