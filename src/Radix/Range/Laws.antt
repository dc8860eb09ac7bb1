-- ===== src/Radix/Range/Laws.antt =====
-- The radix sorts of src/radix.c are stable sorts by the bytes behind the depth.
use Prim.Native.Nat.{ℕ, zero, suc, ◌≤◌, ◌<◌}
use rank.Base.{
  ◌≡◌, refl, ap₂, ◌∙◌, true, ◌||◌, inl, inr, Bool-cases, List, [], ◌∷◌, arith, ◌==◌, leb, length,
  drop, IsOrder, IsOrder-on, All, All-map_imp, All-drop, All-keep, Bytes,
}
use rank.Line.{Line}
use rank.Locale.Lex.{lex, lex-IsOrder}
use rank.Sort.Stable.{IsLe, Ascends, IsStableSort}
use rank.Radix.Ranges.{ReachesDepth, behind, range-IsStableSort}
use rank.Radix.Scatter.{radix_buckets, radix_pass}
use rank.Radix.Scatter.Counts.{layer}
use rank.Radix.Scatter.Order.{Splits, equal-bucket, All-layer, radix_pass-IsStableSort}
use rank.Radix.Range.{text_bucket, insertion_threshold, depth_limit, radix_range, line_radix_range}
use rank.Radix.Range.Buckets.{
  IsByte, IsStableSort-agree, bucket-lex, drop-suc, rest-lex, reaches_next, bucket-lt, lex_ends,
}

module _ {ℓ} {A : Type ℓ} (text : A → Bytes) where
  abbrev pub bucket_at : ℕ → A → ℕ
  bucket_at depth x = text_bucket depth (text x)

  pub behind-IsOrder : (depth : ℕ) → IsOrder (behind text depth)
  behind-IsOrder depth = IsOrder-on (λ x. drop depth (text x)) lex-IsOrder

  pub behind-Splits : (depth : ℕ) → Splits (bucket_at depth) (behind text depth)
  behind-Splits depth x y h = bucket-lex (drop depth (text x)) (drop depth (text y)) h

  -- Within a bucket other than 0, a sort by the bytes behind the next depth is one by those behind this.
  pub next_depth :
      (depth b : ℕ) {xs ys : List A}
      → 1 ≤ b
      → All (λ x. bucket_at depth x ≡ b) xs
      → IsStableSort (behind text (suc depth)) xs ys
      → IsStableSort (behind text depth) xs ys
  next_depth depth b {xs} {ys} h e s =
      IsStableSort-agree (behind-IsOrder (suc depth)) (λ x. bucket_at depth x == b)
        (λ x y p q.
          ap₂ lex (drop-suc depth (text x)) (drop-suc depth (text y))
          ∙ rest-lex (drop depth (text x)) (drop depth (text y)) (ground arith) (ground arith))
        (λ v x p z. ground (arith, equal-bucket (behind-IsOrder depth) (behind-Splits depth) v x z))
        (All-map_imp (λ x. bucket_at depth x ≡ b) (λ x. (bucket_at depth x == b) ≡ true)
          (λ x p. ground arith) xs e)
        s

  Ascends-ended :
      (depth : ℕ) (xs : List A)
      → All (λ x. bucket_at depth x ≡ 0) xs
      → Ascends (behind text depth) xs
  Ascends-ended depth [] h = tt
  Ascends-ended depth (x ∷ xs) (e, h) = (
    All-map_imp (λ y. bucket_at depth y ≡ 0) (IsLe (behind text depth) x)
        (λ y q. lex_ends (drop depth (text x)) (drop depth (text y)) e q) xs h,
    Ascends-ended depth xs h,
  )

  -- A text whose bytes are bytes.
  abbrev pub HasBytes : A → Type 0
  HasBytes x = All IsByte (text x)

  abbrev pub layer_at : ℕ → ℕ → List A → List A
  layer_at depth b items = layer (bucket_at depth) b items

  pub layer-bucket :
      (depth b : ℕ) (items : List A) → All (λ x. bucket_at depth x ≡ b) (layer_at depth b items)
  layer-bucket depth b items = All-layer (behind-IsOrder depth) (behind-Splits depth) b items

  -- A level of the sort, where `sort` sorts by the bytes behind the next depth.
  pub level-IsStableSort :
      (sort : List A → List A) (depth : ℕ) (items aux : List A)
      → All HasBytes items
      → length aux ≡ length items
      → ((r : List A)
          → All (ReachesDepth text (suc depth)) r
          → All HasBytes r
          → IsStableSort (behind text (suc depth)) r (sort r))
      → IsStableSort (behind text depth) items (radix_pass (bucket_at depth) sort items aux)
  level-IsStableSort sort depth items aux bytes e s =
      radix_pass-IsStableSort (behind-IsOrder depth) (behind-Splits depth) sort items aux
        (All-map_imp HasBytes (λ x. bucket_at depth x < radix_buckets)
          (λ x h. bucket-lt (drop depth (text x)) (All-drop IsByte depth (text x) h)) items bytes)
        e
        (record {
          ascends = Ascends-ended depth (layer_at depth 0 items) (layer-bucket depth 0 items);
          classes = λ v. refl;
        })
        (λ b h. next_depth depth b h (layer-bucket depth b items) (
          s (layer_at depth b items)
            (All-map_imp (λ x. bucket_at depth x ≡ b) (ReachesDepth text (suc depth))
              (λ x q. reaches_next depth (text x) (omega arith)) (layer_at depth b items)
              (layer-bucket depth b items))
            (All-keep HasBytes (λ x. bucket_at depth x == b) items bytes)))

  pub radix_range-IsStableSort :
      (fuel depth : ℕ) (items aux : List A)
      → All (ReachesDepth text depth) items
      → All HasBytes items
      → length aux ≡ length items
      → IsStableSort (behind text depth) items (radix_range text fuel depth items aux)
  unfolding radix_range
  radix_range-IsStableSort zero depth items aux reach bytes e =
      range-IsStableSort text depth items reach
  radix_range-IsStableSort (suc fuel) depth items aux reach bytes e =
      elim (Bool-cases (leb (length items) insertion_threshold || leb depth_limit depth)) [
        | inl small ↦ rw (small, radix_range) (range-IsStableSort text depth items reach)
        | inr large ↦
            rw (large, radix_range)
              (level-IsStableSort (λ r. radix_range text fuel (suc depth) r r) depth items aux bytes
                e (λ r h k. radix_range-IsStableSort fuel (suc depth) r r h k refl))
      ]

-- On lines of bytes that all reach the depth, and for every `aux` of their number, `line_radix_range` is a
-- stable sort by the bytes behind it.
pub line_radix_range-IsStableSort :
    (depth : ℕ) (items aux : List Line)
    → All (ReachesDepth (λ (l : Line). l.text) depth) items
    → All (HasBytes (λ (l : Line). l.text)) items
    → length aux ≡ length items
    → IsStableSort (behind (λ (l : Line). l.text) depth) items (line_radix_range depth items aux)
unfolding line_radix_range
line_radix_range-IsStableSort depth items aux reach bytes e =
    radix_range-IsStableSort (λ (l : Line). l.text) depth_limit depth items aux reach bytes e
