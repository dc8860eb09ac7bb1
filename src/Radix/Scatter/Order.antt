-- ===== src/Radix/Scatter/Order.antt =====
-- A level of a radix sort of src/radix.c is a stable sort, where the buckets are in order.
use Prim.Native.Nat.{ℕ, zero, suc, ◌+◌, ◌≤◌, ◌<◌}
use mathlib.Core.Path.{subst}
use rank.Base.{
  ◌≡◌, refl, sym, ap₂, ◌∙◌, true, false, inl, inr, Bool-cases, List, [], ◌∷◌, ◌++◌, append-nil,
  arith, ◌==◌, ltb, if◌then◌else◌, length, ℤ, is_neg, is_zero, IsOrder, All, All-append,
  All-map_imp, keep-nil, keep-cons, keep-append, keep_none,
}
use rank.Sort.Stable.{IsLe, Ascends, class, SameClasses, IsStableSort}
use rank.Sort.Append.{length-IsStableSort, IsStableSort-append, IsStableSort-of_classes}
use rank.Radix.Scatter.{radix_buckets, radix_pass}
use rank.Radix.Scatter.Counts.{layer}
use rank.Radix.Scatter.Layers.{layers}
use rank.Radix.Scatter.Pass.{piece, pieces, pass-pieces}

-- Elements of an earlier bucket are smaller.
abbrev pub Splits {ℓ} : {A : Type ℓ} → (A → ℕ) → (A → A → ℤ) → Type ℓ
Splits {A} bucket compare = (x y : A) → bucket x < bucket y → is_neg (compare x y) ≡ true

module _ {ℓ} {A : Type ℓ} {bucket : A → ℕ} {compare : A → A → ℤ} (o : IsOrder compare)
    (splits : Splits bucket compare) where
  pub equal-bucket : (v x : A) → is_zero (compare v x) ≡ true → bucket v ≡ bucket x
  equal-bucket v x e = ground (arith, splits v x, splits x v, o.flip v x, o.flip x v)

  class-layer :
      (v : A) (b : ℕ) (items : List A)
      → class compare v (layer bucket b items)
        ≡ (if bucket v == b then class compare v items else [])
  class-layer v b [] =
      ground (arith, keep-nil (λ x. bucket x == b), keep-nil (λ x. is_zero (compare v x)))
  class-layer v b (x ∷ items) = ground (
    arith,
    keep-cons (λ x. bucket x == b) x items,
    class-layer v b items,
    equal-bucket v x,
    keep-cons (λ x. is_zero (compare v x)) x items,
    keep-cons (λ x. is_zero (compare v x)) x (layer bucket b items),
  )

  class-layers :
      (v : A) (k n : ℕ) (items : List A)
      → class compare v (layers bucket k n items) ≡ (
          if ltb (bucket v) k
          then []
          else if ltb (bucket v) (k + n)
          then class compare v items
          else [])
  class-layers v k zero items = ground (arith, keep-nil (λ x. is_zero (compare v x)))
  class-layers v k (suc n) items =
      keep-append (λ x. is_zero (compare v x)) (layer bucket k items)
        (layers bucket (suc k) n items)
      ∙ ap₂ ◌++◌ (class-layer v k items) (class-layers v (suc k) n items)
      ∙ ground (arith, append-nil (class compare v items))

  SameClasses-layers :
      (n : ℕ) (items : List A)
      → All (λ x. bucket x < n) items
      → SameClasses compare (layers bucket 0 n items) items
  SameClasses-layers n items h v = elim (Bool-cases (ltb (bucket v) n)) [
    | inl low ↦ class-layers v 0 n items ∙ ground arith
    | inr high ↦
        class-layers v 0 n items
        ∙ ground (
          arith,
          keep_none (λ x. is_zero (compare v x)) items
              (All-map_imp (λ x. bucket x < n) (λ x. is_zero (compare v x) ≡ false)
                (λ x low. ground (arith, equal-bucket v x)) items h),
        )
  ]

  pub All-layer : (b : ℕ) (items : List A) → All (λ x. bucket x ≡ b) (layer bucket b items)
  All-layer b [] = rw (keep-nil (λ x. bucket x == b)) tt
  All-layer b (x ∷ items) = elim (Bool-cases (bucket x == b)) [
    | inl e ↦ rw (keep-cons (λ x. bucket x == b) x items, e) (ground arith, All-layer b items)
    | inr n ↦ rw (keep-cons (λ x. bucket x == b) x items, n) (All-layer b items)
  ]

  All-layers : (k n : ℕ) (items : List A) → All (λ x. k ≤ bucket x) (layers bucket k n items)
  All-layers k zero items = tt
  All-layers k (suc n) items =
      All-append (λ x. k ≤ bucket x) (layer bucket k items) (layers bucket (suc k) n items)
        (All-map_imp (λ x. bucket x ≡ k) (λ x. k ≤ bucket x) (λ x e. omega arith)
          (layer bucket k items) (All-layer k items))
        (All-map_imp (λ x. suc k ≤ bucket x) (λ x. k ≤ bucket x) (λ x e. omega arith)
          (layers bucket (suc k) n items) (All-layers (suc k) n items))

  -- A bucket is at most all later ones.
  layer-below :
      (k n : ℕ) (items : List A)
      → All (λ x. All (IsLe compare x) (layers bucket (suc k) n items)) (layer bucket k items)
  layer-below k n items =
      All-map_imp (λ x. bucket x ≡ k) (λ x. All (IsLe compare x) (layers bucket (suc k) n items))
        (λ x e.
          All-map_imp (λ y. suc k ≤ bucket y) (IsLe compare x)
            (λ y h. ground (arith, splits x y, o.flip x y, o.flip y x))
            (layers bucket (suc k) n items) (All-layers (suc k) n items))
        (layer bucket k items) (All-layer k items)

  Ascends-few : (l : List A) → ltb 1 (length l) ≡ false → Ascends compare l
  Ascends-few [] h = tt
  Ascends-few (x ∷ []) h = (tt, tt)
  Ascends-few (x ∷ y ∷ l) h = absurd (ground arith)

  module _ (sort : List A → List A) (items : List A) where
    SortsBucket : ℕ → Type ℓ
    SortsBucket b = IsStableSort compare (layer bucket b items) (sort (layer bucket b items))

    piece-IsStableSort :
        (b : ℕ)
        → IsStableSort compare (layer bucket b items) (sort (layer bucket b items))
        → IsStableSort compare (layer bucket b items) (piece bucket sort items b)
    piece-IsStableSort b s = elim (Bool-cases (ltb 1 (length (layer bucket b items)))) [
      | inl many ↦ rw many s
      | inr few ↦
          rw few (record { ascends = Ascends-few (layer bucket b items) few; classes = λ v. refl })
    ]

    pieces-IsStableSort :
        (k n : ℕ)
        → ((b : ℕ)
            → k ≤ b
            → IsStableSort compare (layer bucket b items) (sort (layer bucket b items)))
        → IsStableSort compare (layers bucket k n items) (pieces bucket sort items k n)
    pieces-IsStableSort k zero s = record { ascends = tt; classes = λ v. refl }
    pieces-IsStableSort k (suc n) s =
        IsStableSort-append o (piece-IsStableSort k (s k (omega arith)))
          (pieces-IsStableSort (suc k) n (λ b h. s b (omega arith))) (layer-below k n items)

  -- If smaller buckets hold smaller elements, elements of bucket 0 are equal, and `sort` sorts each other
  -- bucket stably, a pass sorts stably, over whatever `aux` held.
  pub radix_pass-IsStableSort :
      (sort : List A → List A) (items aux : List A)
      → All (λ x. bucket x < radix_buckets) items
      → length aux ≡ length items
      → IsStableSort compare (layer bucket 0 items) (layer bucket 0 items)
      → ((b : ℕ)
          → 1 ≤ b
          → IsStableSort compare (layer bucket b items) (sort (layer bucket b items)))
      → IsStableSort compare items (radix_pass bucket sort items aux)
  unfolding radix_pass
  radix_pass-IsStableSort sort items aux h e first s =
      subst (IsStableSort compare items)
        (sym (
          pass-pieces bucket sort items 256 aux h e
            (λ b k. length-IsStableSort o (piece-IsStableSort sort items b (s b k)))))
        (IsStableSort-of_classes o (SameClasses-layers radix_buckets items h) (
          IsStableSort-append o first (pieces-IsStableSort sort items 1 256 s)
            (layer-below 0 256 items)))
