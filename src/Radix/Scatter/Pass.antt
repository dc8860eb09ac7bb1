-- ===== src/Radix/Scatter/Pass.antt =====
-- One level of a radix sort of src/radix.c sorts stably, if it sorts each bucket stably.
use Prim.Native.Nat.{ℕ, zero, suc, ◌+◌, ◌≤◌, ◌<◌}
use rank.Base.{
  ◌≡◌, refl, sym, ap, ap₂, ◌∙◌, inl, inr, Bool-cases, List, [], ◌∷◌, ◌++◌, append_assoc, arith, ltb,
  if◌then◌else◌, length, length-append, take, drop, All,
}
use rank.Radix.Scatter.{zeros, starts_loop, count_loop, scatter, bucket_loop, behind_first}
use rank.Radix.Scatter.Counts.{layer}
use rank.Radix.Scatter.Layers.{sizes, layers, count_loop-sizes, scatter-layers}

module _ {ℓ} {A : Type ℓ} where
  take-length : (p q : List A) → take (length p) (p ++ q) ≡ p
  take-length [] q = refl
  take-length (x ∷ p) q = ap (◌∷◌ x) (take-length p q)

  drop-length : (p q : List A) → drop (length p) (p ++ q) ≡ q
  drop-length [] q = refl
  drop-length (x ∷ p) q = drop-length p q

  drop-length₂ : (p l q : List A) → drop (length p + length l) (p ++ (l ++ q)) ≡ q
  drop-length₂ p l q =
      ap₂ drop (sym (length-append p l)) (sym (append_assoc p l q)) ∙ drop-length (p ++ l) q

module _ {ℓ} {A : Type ℓ} (bucket : A → ℕ) (sort : List A → List A) (items : List A) where
  -- What the loop leaves of bucket `b`,
  abbrev pub piece : ℕ → List A
  piece b = let l = layer bucket b items in if ltb 1 (length l) then sort l else l

  -- and of `n` buckets from `k` on.
  abbrev pub pieces : ℕ → ℕ → List A
  pieces k zero = []
  pieces k (suc n) = piece k ++ pieces (suc k) n

  -- The new range after one bucket.
  replaced :
      (p l q : List A)
      → (if ltb 1 (length l)
          then take (length p) (p ++ (l ++ q))
            ++ (sort (take (length l) (drop (length p) (p ++ (l ++ q))))
                ++ drop (length p + length l) (p ++ (l ++ q)))
          else p ++ (l ++ q))
        ≡ (p ++ (if ltb 1 (length l) then sort l else l)) ++ q
  replaced p l q = elim (Bool-cases (ltb 1 (length l))) [
    | inl many ↦ rw many (
        rw (take-length p (l ++ q), drop-length p (l ++ q), take-length l q, drop-length₂ p l q)
          (sym (append_assoc p (sort l) q)))
    | inr few ↦ rw few (sym (append_assoc p l q))
  ]

  bucket_loop-pieces :
      (n k : ℕ) (p : List A)
      → ((b : ℕ) → k ≤ b → length (piece b) ≡ length (layer bucket b items))
      → bucket_loop sort
          (starts_loop (length p) (sizes bucket k n items))
          (sizes bucket k n items)
          (p ++ layers bucket k n items)
        ≡ p ++ pieces k n
  unfolding bucket_loop starts_loop
  bucket_loop-pieces zero k p same = refl
  bucket_loop-pieces (suc n) k p same =
      let l = layer bucket k items in
      let size : length (p ++ piece k) ≡ length p + length l =
        length-append p (piece k) ∙ ap (λ m. length p + m) (same k (omega arith)) in
      ap₂
        (λ m r.
          bucket_loop sort (starts_loop m (sizes bucket (suc k) n items))
            (sizes bucket (suc k) n items) r)
        (sym size) (replaced p l (layers bucket (suc k) n items))
      ∙ bucket_loop-pieces n (suc k) (p ++ piece k) (λ b h. same b (omega arith))
      ∙ append_assoc p (piece k) (pieces (suc k) n)

  -- A pass over `suc n` buckets.
  pub pass-pieces :
      (n : ℕ) (aux : List A)
      → All (λ x. bucket x < suc n) items
      → length aux ≡ length items
      → ((b : ℕ) → 1 ≤ b → length (piece b) ≡ length (layer bucket b items))
      → (let counts = count_loop bucket items (zeros (suc n)) in
          let starts = starts_loop 0 counts in
          bucket_loop sort
            (behind_first starts)
            (behind_first counts)
            (scatter bucket items starts aux))
        ≡ layer bucket 0 items ++ pieces 1 n
  unfolding starts_loop
  pass-pieces n aux h e same =
      ap₂ (λ c r. bucket_loop sort (behind_first (starts_loop 0 c)) (behind_first c) r)
        (count_loop-sizes bucket (suc n) items h) (scatter-layers bucket (suc n) items aux h e)
      ∙ ap
          (λ m.
            bucket_loop sort (starts_loop m (sizes bucket 1 n items)) (sizes bucket 1 n items)
              (layer bucket 0 items ++ layers bucket 1 n items))
          (omega arith)
      ∙ bucket_loop-pieces n 1 (layer bucket 0 items) same
