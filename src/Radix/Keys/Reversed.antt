-- ===== src/Radix/Keys/Reversed.antt =====
-- What src/radix.c does to many equal keys of a key with `r`: `skip_key_common_prefix_lcp` returns the
-- depth limit for them, and behind their end `compare_key_from_depth` finds each smaller than each.
use Prim.Native.Nat.{ℕ, zero, suc, ◌+◌, ◌-◌, ◌/◌, ◌≤◌, ◌<◌}
use rank.Base.{
  ◌≡◌, refl, ap, ◌∙◌, true, false, ◌||◌, inl, inr, Bool-cases, List, [], ◌∷◌, arith, ◌==◌, ltb, leb,
  length, length-drop, get_elem?, drop, ℤ, is_neg, All, Bytes,
}
use rank.Radix.{compare_from_depth, is_below, find_place, insert_at, insertion_loop, insertion_sort}
use rank.Radix.Range.{depth_limit}
use rank.Radix.Keys.{
  common, lower, lcp_loop, compare_key_from_depth, key_threshold, skip_key_common_prefix_lcp, texts,
  key_insertion_range, key_level, key_range,
}

module _ {ℓ} {A : Type ℓ} where
  -- `xs` in opposite order, in front of `ys`.
  abbrev pub reverse_onto : List A → List A → List A
  reverse_onto [] ys = ys
  reverse_onto (x ∷ xs) ys = reverse_onto xs (x ∷ ys)

module _ {ℓ} {A : Type ℓ} (c : A → A → ℤ) (P : A → Type 0)
    (smaller : (x y : A) → P x → P y → is_neg (c x y) ≡ true) where
  below-All :
      (line : A) (xs : List A) (i : ℕ)
      → P line
      → All P xs
      → i < length xs
      → is_below c line (get_elem? xs i) ≡ true
  below-All line [] i p h k = absurd (omega arith)
  below-All line (x ∷ xs) zero p (q, h) k = smaller line x p q
  below-All line (x ∷ xs) (suc i) p (q, h) k = below-All line xs i p h (omega arith)

  find_place-front :
      (fuel : ℕ) (line : A) (xs : List A) (right : ℕ)
      → P line
      → All P xs
      → right ≤ length xs
      → find_place c fuel line xs 0 right ≡ 0
  unfolding find_place
  find_place-front zero line xs right p h k = refl
  find_place-front (suc fuel) line xs right p h k = elim (Bool-cases (ltb 0 right)) [
    | inl some_left ↦
        let mid = 0 + (right - 0) / 2 in
        let below : is_below c line (get_elem? xs mid) ≡ true =
          below-All line xs mid p h (ground arith) in
        rw (some_left, below) (find_place-front fuel line xs mid p h (omega arith))
    | inr none_left ↦ rw none_left refl
  ]

  loop-reverse :
      (xs rest : List A) → All P xs → All P rest → insertion_loop c xs rest ≡ reverse_onto rest xs
  unfolding insertion_loop
  loop-reverse xs [] h k = refl
  loop-reverse xs (line ∷ rest) h (p, k) =
      ap (λ i. insertion_loop c (insert_at i line xs) rest)
        (find_place-front (length xs) line xs (length xs) p h (omega arith))
      ∙ loop-reverse (line ∷ xs) rest (p, h) k

  -- Items that all find each other greater are turned round.
  insertion_sort-reverse : (xs : List A) → All P xs → insertion_sort c xs ≡ reverse_onto xs []
  unfolding insertion_sort
  insertion_sort-reverse [] h = refl
  insertion_sort-reverse (line ∷ rest) (p, k) = loop-reverse (line ∷ []) rest (p, tt) k

common_self : (n : ℕ) (a : Bytes) → n ≤ length a → common n a a ≡ n
unfolding common
common_self zero a h = refl
common_self (suc n) [] h = absurd (omega arith)
common_self (suc n) (x ∷ a) h = ground (arith, common_self n a (omega arith))

lower_self : (n : ℕ) → lower n n ≡ n
lower_self n = ground arith

module _ (depth : ℕ) (key : Bytes) (h : depth < length key) where
  lcp_loop-equal :
      (keys : List Bytes)
      → All (λ k. k ≡ key) keys
      → lcp_loop depth key keys (length key) true ≡ depth_limit
  unfolding lcp_loop
  lcp_loop-equal [] all = ground arith
  lcp_loop-equal (k ∷ keys) (e, all) =
      let self : common (length key - depth) (drop depth key) (drop depth key)
          ≡ length key - depth =
        common_self (length key - depth) (drop depth key) (omega (arith, length-drop depth key)) in
      let pos_end : depth + (length key - depth) ≡ length key = omega arith in
      let behind_depth : (length key == depth) ≡ false = ground arith in
      let same : (length key == length key) ≡ true = ground arith in
      rw (e, lower_self (length key), self, pos_end, behind_depth, same) (lcp_loop-equal keys all)

  skip-equal :
      (keys : List Bytes)
      → All (λ k. k ≡ key) keys
      → length key < depth_limit
      → key_threshold < length (key ∷ keys)
      → skip_key_common_prefix_lcp depth (key ∷ keys) ≡ depth_limit
  unfolding skip_key_common_prefix_lcp
  skip-equal keys all short many =
      let many_test : leb (length (key ∷ keys)) key_threshold ≡ false = ground arith in
      let above : leb depth_limit depth ≡ false = ground arith in
      let whole : lower (length key) depth_limit ≡ length key = ground arith in
      let left : leb (length key) depth ≡ false = ground arith in
      rw (many_test, above, whole, left) (lcp_loop-equal keys all)

-- Behind both ends, `compare_key_from_depth` of a key with `r` is negative.
compare_key_from_depth-behind :
    (depth : ℕ) (a b : Bytes)
    → length a < depth
    → length b < depth
    → is_neg (compare_key_from_depth true depth a b) ≡ true
unfolding compare_key_from_depth compare_from_depth
compare_key_from_depth-behind depth a b h k = ground arith

module _ {ℓ} {A : Type ℓ} (text : A → Bytes) (key : Bytes) where
  All-texts :
      (items : List A) → All (λ x. text x ≡ key) items → All (λ k. k ≡ key) (texts text items)
  All-texts [] h = tt
  All-texts (x ∷ items) (e, h) = (e, All-texts items h)

  length-texts : (items : List A) → length (texts text items) ≡ length items
  length-texts [] = refl
  length-texts (x ∷ items) = ap suc (length-texts items)

  -- More than 48 items with the same key, which is longer than the depth and shorter than the depth
  -- limit, are turned round when the key has `r`.
  pub key_range-reversed :
      (fuel depth : ℕ) (items aux : List A)
      → depth < length key
      → length key < depth_limit
      → key_threshold < length items
      → All (λ x. text x ≡ key) items
      → key_range text true (suc fuel) depth items aux ≡ reverse_onto items []
  unfolding key_range key_level key_insertion_range
  key_range-reversed fuel depth [] aux h short many all = absurd (omega arith)
  key_range-reversed fuel depth (x ∷ items) aux h short many (e, all) =
      let count : key_threshold < length (key ∷ texts text items) =
        omega (arith, length-texts items) in
      let stop : (leb (length (x ∷ items)) key_threshold || leb depth_limit depth_limit) ≡ true =
        ground arith in
      let skipped : skip_key_common_prefix_lcp depth (texts text (x ∷ items)) ≡ depth_limit =
        ap (λ t. skip_key_common_prefix_lcp depth (t ∷ texts text items)) e
        ∙ skip-equal depth key h (texts text items) (All-texts items all) short count in
      ap (λ d. key_level text true (λ at r. key_range text true fuel at r r) d (x ∷ items) aux)
        skipped
      ∙ rw (stop, key_level)
          ((insertion_sort-reverse
            (λ a b. compare_key_from_depth true depth_limit (text a) (text b)) (λ a. text a ≡ key)
            (λ a b p q.
              compare_key_from_depth-behind depth_limit (text a) (text b)
                (omega (arith, ap length p)) (omega (arith, ap length q)))
            (x ∷ items) (e, all)))
