-- ===== src/Radix/Keys/Laws.antt =====
-- The key radix sort of src/radix.c on one key that is not reversed is a stable sort by the bytes of
-- the key.
use Prim.Native.Nat.{ℕ, zero, suc, ◌+◌, ◌≤◌}
use mathlib.Core.Path.{subst}
use rank.Base.{
  ◌≡◌, refl, sym, ap, ap₂, ◌∙◌, Bool, true, false, ◌||◌, inl, inr, Bool-cases, List, [], ◌∷◌, arith,
  leb, length, length-drop, drop, is_neg, is_zero, All, Bytes,
}
use rank.Locale.Lex.{lex, lex_zero, lex_self}
use rank.Sort.Stable.{IsStableSort}
use rank.Radix.{compare_from_depth, insertion_sort}
use rank.Radix.Insertion.{insertion_sort-IsStableSort}
use rank.Radix.Ranges.{ReachesDepth, behind, insertion_sort_same, range-IsStableSort}
use rank.Radix.Range.{depth_limit}
use rank.Radix.Range.Buckets.{IsStableSort-agree}
use rank.Radix.Range.Laws.{HasBytes, behind-IsOrder, level-IsStableSort}
use rank.Radix.Keys.{
  compare_key_from_depth, key_threshold, skip_key_common_prefix_lcp, texts, key_insertion_range,
  key_pass, key_level, key_range, key_radix_range,
}
use rank.Radix.Keys.Prefix.{starts}
use rank.Radix.Keys.Skip.{
  Skipped, shared, equal, skip-Skipped, drop-drop, starts-lex, starts-le, compare_from_depth-ended,
}

starts_same : (p a b : Bytes) → is_zero (lex a b) ≡ true → starts p b ≡ true → starts p a ≡ true
starts_same p a b z h = subst (λ t. starts p t ≡ true) (sym (lex_zero a b z)) h

module _ {ℓ} {A : Type ℓ} (text : A → Bytes) where
  abbrev starts_at : ℕ → Bytes → A → Bool
  starts_at depth prefix x = starts prefix (drop depth (text x))

  -- A sort by what is behind a shared prefix.
  shared-IsStableSort :
      (depth : ℕ) (prefix : Bytes) {xs ys : List A}
      → All (λ x. starts prefix (drop depth (text x)) ≡ true) xs
      → IsStableSort (behind text (depth + length prefix)) xs ys
      → IsStableSort (behind text depth) xs ys
  shared-IsStableSort depth prefix h s =
      IsStableSort-agree (behind-IsOrder text (depth + length prefix)) (starts_at depth prefix)
        (λ x y p q.
          ap₂ lex (drop-drop depth (length prefix) (text x))
            (drop-drop depth (length prefix) (text y))
          ∙ starts-lex prefix (drop depth (text x)) (drop depth (text y)) p q)
        (λ v x p z. starts_same prefix (drop depth (text v)) (drop depth (text x)) z p) h s

  reach_shared :
      (depth : ℕ) (prefix : Bytes) (xs : List A)
      → All (ReachesDepth text depth) xs
      → All (λ x. starts prefix (drop depth (text x)) ≡ true) xs
      → All (ReachesDepth text (depth + length prefix)) xs
  reach_shared depth prefix [] h k = tt
  reach_shared depth prefix (x ∷ xs) (r, h) (s, k) = (
    omega (arith, starts-le prefix (drop depth (text x)) s, length-drop depth (text x)),
    reach_shared depth prefix xs h k,
  )

  -- Keys that are all equal keep their order, though the depth limit is behind their end.
  equal-IsStableSort :
      (depth size : ℕ) (whole : Bytes) (items : List A)
      → size ≤ depth_limit
      → All (λ x. (drop depth (text x) ≡ whole) × (length (text x) ≡ size)) items
      → IsStableSort
          (behind text depth)
          items
          (insertion_sort (λ a b. compare_from_depth depth_limit (text a) (text b)) items)
  equal-IsStableSort depth size whole items h k =
      subst (IsStableSort (behind text depth) items)
        (sym (
          insertion_sort_same (λ a b. compare_from_depth depth_limit (text a) (text b))
            (behind text depth) (λ x. (drop depth (text x) ≡ whole) × (length (text x) ≡ size))
            (λ x y (p, m) (q, n).
              compare_from_depth-ended depth_limit (text x) (text y) (omega arith) (omega arith)
              ∙ sym (ap is_neg (ap₂ lex p q ∙ lex_self whole)))
            items k))
        (insertion_sort-IsStableSort (behind-IsOrder text depth) items)

  -- What the recursive calls do.
  SortsBehind : (ℕ → List A → List A) → Type ℓ
  SortsBehind sort =
      (depth : ℕ) (r : List A)
      → All (ReachesDepth text depth) r
      → All (HasBytes text) r
      → IsStableSort (behind text depth) r (sort depth r)

  -- The level at a depth that all keys reach,
  key_level-IsStableSort :
      (sort : ℕ → List A → List A) (depth : ℕ) (items aux : List A)
      → SortsBehind sort
      → All (ReachesDepth text depth) items
      → All (HasBytes text) items
      → length aux ≡ length items
      → IsStableSort (behind text depth) items (key_level text false sort depth items aux)
  unfolding key_level key_insertion_range key_pass compare_key_from_depth SortsBehind
  key_level-IsStableSort sort depth items aux ih reach bytes e =
      elim (Bool-cases (leb (length items) key_threshold || leb depth_limit depth)) [
        | inl small ↦ rw (small, key_level) (range-IsStableSort text depth items reach)
        | inr large ↦
            rw (large, key_level)
              (level-IsStableSort text (sort (suc depth)) depth items aux bytes e (ih (suc depth)))
      ]

  -- and at the depth that the skip returns.
  skipped-IsStableSort :
      (sort : ℕ → List A → List A) (depth at : ℕ) (items aux : List A)
      → Skipped text depth items at
      → SortsBehind sort
      → All (ReachesDepth text depth) items
      → All (HasBytes text) items
      → length aux ≡ length items
      → IsStableSort (behind text depth) items (key_level text false sort at items aux)
  unfolding key_level key_insertion_range compare_key_from_depth
  skipped-IsStableSort sort depth at items aux (shared prefix r agree) ih reach bytes e =
      shared-IsStableSort depth prefix agree (
        subst
          (λ d.
            IsStableSort (behind text (depth + length prefix)) items
              (key_level text false sort d items aux))
          (sym r)
          (key_level-IsStableSort sort (depth + length prefix) items aux ih
            (reach_shared depth prefix items reach agree) bytes e))
  skipped-IsStableSort sort depth at items aux (equal whole size r h all) ih reach bytes e =
      let stop : (leb (length items) key_threshold || leb depth_limit depth_limit) ≡ true =
        ground arith in
      subst (λ d. IsStableSort (behind text depth) items (key_level text false sort d items aux))
        (sym r) (rw (stop, key_level) (equal-IsStableSort depth size whole items h all))

  pub key_range-IsStableSort :
      (fuel depth : ℕ) (items aux : List A)
      → All (ReachesDepth text depth) items
      → All (HasBytes text) items
      → length aux ≡ length items
      → IsStableSort (behind text depth) items (key_range text false fuel depth items aux)
  unfolding key_range key_insertion_range compare_key_from_depth SortsBehind
  key_range-IsStableSort zero depth items aux reach bytes e =
      range-IsStableSort text depth items reach
  key_range-IsStableSort (suc fuel) depth items aux reach bytes e =
      skipped-IsStableSort (λ d r. key_range text false fuel d r r) depth
        (skip_key_common_prefix_lcp depth (texts text items)) items aux
        (skip-Skipped text depth items) (λ d r h b. key_range-IsStableSort fuel d r r h b refl)
        reach bytes e

  pub All-reach : (items : List A) → All (ReachesDepth text 0) items
  All-reach [] = tt
  All-reach (x ∷ items) = (omega arith, All-reach items)

  -- For a key without `r`, and every `aux` of the items' number, `key_radix_range` from depth 0 sorts
  -- stably by the bytes of the key.
  pub key_radix_range-IsStableSort :
      (items aux : List A)
      → All (HasBytes text) items
      → length aux ≡ length items
      → IsStableSort (λ x y. lex (text x) (text y)) items (key_radix_range text false 0 items aux)
  unfolding key_radix_range
  key_radix_range-IsStableSort items aux bytes e =
      key_range-IsStableSort depth_limit 0 items aux (All-reach items) bytes e
